-- ===== src/Memory/Make/Texts.antt =====
-- Copies of buffers and texts.
use php_parallax.Prelude.{
  ℕ, suc, ◌≡◌, refl, sym, ◌∙◌, ap, true, false, Option, none, some, ◌==◌, arith, [], ◌∷◌, ◌++◌,
  length, take, leb, Bool-cases, inl, inr, ◌≤◌, le→leb, append-nil, take-append,
}
use php_parallax.Value.{Bytes, CStr, Key, int_key, str_key, until_nul}
use php_parallax.Value
use php_parallax.Memory.Store.{Ptr, Kv, chars, Heap, ok, ◌>>=◌, ret, Region, nowhere, single}
use php_parallax.Memory.Owns.{Rooted, Buffer, Text, HasKey}
use php_parallax.Memory.Make.{
  load_chars, chars_in, strlen, one_more, load_strlen, text_in, len_of, alloc_chars, dup_bytes,
  dup_cstr,
}
use php_parallax.Memory.Copy.{clone_key}
use php_parallax.Memory.Release.Remove.{==-zero}
use php_parallax.Memory.Extends.{
  IsMalloc, Ends, ends, Ends-map, Extends-refl, Extends-new, Gives, alloc-Ends,
}
use php_parallax.Memory.Make.Roots.{Rooted-write}

load_chars-live :
    (p : Ptr) (bs : Bytes) (len : ℕ) (h : Heap)
    → h p ≡ some (chars bs)
    → leb len (length bs) ≡ true
    → load_chars p len h ≡ ok (take len bs) h
unfolding load_chars chars_in
load_chars-live p bs len h live fits = rw (live, fits)

strlen-nul : (s : Bytes) → strlen (s ++ 0 ∷ []) ≡ some (length (until_nul s))
unfolding strlen until_nul one_more
strlen-nul [] = refl
strlen-nul (c ∷ s) = elim (Bool-cases (c == 0)) [ inl e ↦ rw e | inr e ↦ rw (e, strlen-nul s) ]

take-nul : (s : Bytes) → take (suc (length (until_nul s))) (s ++ 0 ∷ []) ≡ until_nul s ++ 0 ∷ []
unfolding until_nul
take-nul [] = refl
take-nul (c ∷ s) = elim (Bool-cases (c == 0)) [
  | inl e ↦ rw e (let z : c ≡ 0 = ground arith in rw z)
  | inr e ↦ rw e (ap (λ t. c ∷ t) (take-nul s))
]

length-nul : (s : Bytes) → suc (length (until_nul s)) ≤ length (s ++ 0 ∷ [])
unfolding until_nul
length-nul [] = omega arith
length-nul (c ∷ s) = elim (Bool-cases (c == 0)) [
  | inl e ↦ rw e (omega arith)
  | inr e ↦ rw e (omega (arith, length-nul s))
]

take_all : (xs : Bytes) → take (length xs) xs ≡ xs
take_all xs = ap (take (length xs)) (sym (append-nil xs)) ∙ take-append xs []

module _ (malloc : Heap → Option Ptr) (law : IsMalloc malloc) where
  alloc_chars-Gives :
      (p : Ptr) (bs : Bytes) (len : ℕ) (h : Heap)
      → h p ≡ some (chars bs)
      → len ≤ length bs
      → Ends
          (Gives (λ g q f. Rooted g q (chars (take len bs)) nowhere f) h)
          (alloc_chars malloc p len h)
  unfolding alloc_chars
  alloc_chars-Gives p bs len h live fits =
      let b = chars (take len bs) in
      Ends-map
        (alloc-Ends malloc law (do s ← load_chars p len; ret (chars s)) b h
          (rw (load_chars-live p bs len h live (le→leb len (length bs) fits))))
        (λ q g o. (single q, rw o.2 (Extends-new q b o.1), rw o.2 (Rooted-write q b h o.0)))

  dup_chars :
      (p : Ptr) (c : ℕ) (cs : Bytes) (b : Region) (h : Heap)
      → Buffer h p (c ∷ cs) b
      → Ends (Gives (λ g q f. Buffer g q (c ∷ cs) f) h) (alloc_chars malloc p (length (c ∷ cs)) h)
  dup_chars p c cs b h o =
      rw (take_all (c ∷ cs)) at
        (alloc_chars-Gives p (c ∷ cs) (length (c ∷ cs)) h o.live (omega arith))

  pub dup_bytes-Gives :
      (p : Ptr) (s : Bytes) (b : Region) (h : Heap)
      → Buffer h p s b
      → Ends (Gives (λ g q f. Buffer g q s f) h) (dup_bytes malloc p (length s) h)
  unfolding dup_bytes
  dup_bytes-Gives p [] b h o = ends (nowhere, Extends-refl h, (refl, refl))
  dup_bytes-Gives p (c ∷ cs) b h o =
      let some_bytes : (length (c ∷ cs) == 0) ≡ false = ground arith in
      rw some_bytes (dup_chars p c cs b h o)

  pub dup_cstr-Gives :
      (p : Ptr) (s : CStr) (b : Region) (h : Heap)
      → Text h p s b
      → Ends (Gives (λ g q f. Text g q (Value.dup_cstr s) f) h) (dup_cstr malloc p h)
  unfolding dup_cstr Value.dup_cstr load_strlen text_in len_of
  dup_cstr-Gives p none b h o = rw o.0 (ends (nowhere, Extends-refl h, (refl, refl)))
  dup_cstr-Gives p (some s) b h o =
      rw (==-zero p o.set, o.live, strlen-nul s)
        (rw (take-nul s) at
          (alloc_chars-Gives p (s ++ 0 ∷ []) (suc (length (until_nul s))) h o.live (length-nul s)))

  pub clone_key-Gives :
      (kv : Kv) (j : Key) (b : Region) (h : Heap)
      → HasKey h kv j b
      → Ends
          (Gives (λ g q f. (v : Ptr) → HasKey g (record kv { skey = q; val = v }) j f) h)
          (clone_key malloc kv h)
  unfolding clone_key
  clone_key-Gives kv (int_key i) b h o =
      rw o.3.0 (ends (nowhere, Extends-refl h, λ v. (o.0, o.1, o.2, (refl, refl))))
  clone_key-Gives kv (str_key []) b h o =
      rw o.2.0 (ends (nowhere, Extends-refl h, λ v. (o.0, o.1, (refl, refl))))
  clone_key-Gives kv (str_key (c ∷ cs)) b h o =
      let some_bytes : (length (c ∷ cs) == 0) ≡ false = ground arith in
      rw (==-zero kv.skey o.2.set, o.1, some_bytes)
        (Ends-map (dup_chars kv.skey c cs b h o.2)
          (λ q g (f, ext, new). (f, ext, λ v. (o.0, refl, new))))
