-- ===== src/Memory/Make/Values.antt =====
-- The constructors give a new tree that represents the value.
use php_parallax.Prelude.{ℕ, Bool, Option, length}
use php_parallax.Prelude.Int.{ℤ}
use php_parallax.Value.{
  Bytes, CStr, Value, Items, null, bool, long, double, str, arr, obj, err, nil, count,
}
use php_parallax.Value
use php_parallax.Memory.Store.{Ptr, Node, node, Heap, ret, ◌>>◌, Region, nowhere, ◌∪◌}
use php_parallax.Memory.Owns.{Rooted, Buffer, Text, Owns}
use php_parallax.Memory.Frame.{Buffer-frame, Text-frame, Agree-left, Agree-right}
use php_parallax.Memory.Make
use php_parallax.Memory.Extends.{
  IsMalloc, Ends, Ends-after, Ends-map, Extends, Extends-refl, Extends-trans, Gives, Live,
  Live-Agree, Live-Apart, Live-Extends,
}
use php_parallax.Memory.Living.{Text-Live, Live-∪}
use php_parallax.Memory.Make.Roots.{alloc_value-Gives, root-first}
use php_parallax.Memory.Make.Texts.{dup_bytes-Gives, dup_cstr-Gives}

-- The call gives a new tree for the value.
abbrev pub Makes : Value → Heap → Ptr → Heap → Type 0
Makes v = Gives (λ g q f. Owns g q v f)

module _ (malloc : Heap → Option Ptr) (law : IsMalloc malloc) where
  pub value_null-Makes : (h : Heap) → Ends (Makes null h) (Make.value_null malloc h)
  unfolding Make.value_null
  value_null-Makes h = alloc_value-Gives malloc law Node.null h

  pub value_bool-Makes :
      (b : Bool) (h : Heap) → Ends (Makes (bool b) h) (Make.value_bool malloc b h)
  unfolding Make.value_bool
  value_bool-Makes b h = Ends-after (alloc_value-Gives malloc law _ h) (λ v g (f, ext, root).
      Ends-map (root-first ext root (Extends-refl g) (λ z. Node.bool b))
        (λ q m (f', ext', (w, root')). (f', ext', root')))

  pub value_long-Makes : (i : ℤ) (h : Heap) → Ends (Makes (long i) h) (Make.value_long malloc i h)
  unfolding Make.value_long
  value_long-Makes i h = Ends-after (alloc_value-Gives malloc law _ h) (λ v g (f, ext, root).
      Ends-map (root-first ext root (Extends-refl g) (λ z. Node.long i))
        (λ q m (f', ext', (w, root')). (f', ext', root')))

  pub value_double-Makes :
      (d : ℕ) (h : Heap) → Ends (Makes (double d) h) (Make.value_double malloc d h)
  unfolding Make.value_double
  value_double-Makes d h = Ends-after (alloc_value-Gives malloc law _ h) (λ v g (f, ext, root).
      Ends-map (root-first ext root (Extends-refl g) (λ z. Node.double d))
        (λ q m (f', ext', (w, root')). (f', ext', root')))

  pub value_str-Makes :
      (p : Ptr) (s : Bytes) (b : Region) (h : Heap)
      → Buffer h p s b
      → Live b h
      → Ends (Makes (str s) h) (Make.value_str malloc p (length s) h)
  unfolding Make.value_str
  value_str-Makes p s b h src used =
      Ends-after (alloc_value-Gives malloc law _ h) (λ v g (f, ext, root).
        Ends-after
          (dup_bytes-Gives malloc law p s b g (Buffer-frame p s b (Live-Agree ext used) src))
          (λ q k (d, new, buf).
            Ends-map (root-first ext root new (λ z. Node.str q (length s)))
              (λ r m (f', ext', (w, root')). (f', ext', (q, d, Buffer-frame q s d w buf, root')))))

  -- The last step of `value_err`.
  store_texts :
      {h g g1 g2 g3 : Heap} {v : Ptr} {z : Node} (q r t : Ptr) (cls msg trace : CStr) (code : ℤ)
      {f d1 d2 d3 : Region}
      → Extends h f g
      → Rooted g v (node z) nowhere f
      → Extends g d1 g1
      → Extends g1 d2 g2
      → Extends g2 d3 g3
      → Text g1 q cls d1
      → Text g2 r msg d2
      → Text g3 t trace d3
      → Ends
          (Makes (err cls msg code trace) h)
          ((Make.update_node v (λ z. Node.err q r code t) >> ret v) g3)
  store_texts {g1} {g2} {g3} q r t cls msg trace code {f} {d1} {d2} {d3} ext root n1 n2 n3 t1 t2
        t3 =
      let l1 = Text-Live q cls d1 g1 t1 in
      let l2 = Text-Live r msg d2 g2 t2 in
      let l1' = Live-Extends n2 l1 in
      let all_new = Extends-trans (d1 ∪ d2) d3 (Extends-trans d1 d2 n1 n2) n3 in
      Ends-map (root-first ext root all_new (λ z. Node.err q r code t))
        (λ p m (f', ext', (w, root')).
          let w' = Agree-left (d1 ∪ d2) d3 w in
          (
            f',
            ext',
            (
              q,
              r,
              t,
              d1,
              d2,
              d3,
              Text-frame q cls d1 (Agree-left d1 d2 w') (
                  Text-frame q cls d1 (Live-Agree n3 l1')
                    (Text-frame q cls d1 (Live-Agree n2 l1) t1)),
              Text-frame r msg d2 (Agree-right d1 d2 w')
                  (Text-frame r msg d2 (Live-Agree n3 l2) t2),
              Text-frame t trace d3 (Agree-right (d1 ∪ d2) d3 w) t3,
              Live-Apart n2 l1,
              Live-Apart n3 (Live-∪ l1' l2),
              root',
            ),
          ))

  -- The three texts of an error are copied up to their NUL.
  pub value_err-Makes :
      (c m t : Ptr) (cls msg : CStr) (code : ℤ) (trace : CStr) (bc bm bt : Region) (h : Heap)
      → Text h c cls bc
      → Text h m msg bm
      → Text h t trace bt
      → Live bc h
      → Live bm h
      → Live bt h
      → Ends (Makes (Value.value_err cls msg code trace) h) (Make.value_err malloc c m code t h)
  unfolding Make.value_err Value.value_err
  value_err-Makes c m t cls msg code trace bc bm bt h oc om ot lc lm lt =
      Ends-after (alloc_value-Gives malloc law _ h) (λ v g (f, ext, root).
        Ends-after
          (dup_cstr-Gives malloc law c cls bc g (Text-frame c cls bc (Live-Agree ext lc) oc))
          (λ q1 g1 (d1, new1, t1).
            let to1 = Extends-trans f d1 ext new1 in
            Ends-after
              (dup_cstr-Gives malloc law m msg bm g1 (Text-frame m msg bm (Live-Agree to1 lm) om))
              (λ q2 g2 (d2, new2, t2).
                let to2 = Extends-trans (f ∪ d1) d2 to1 new2 in
                Ends-after
                  (dup_cstr-Gives malloc law t trace bt g2
                    (Text-frame t trace bt (Live-Agree to2 lt) ot))
                  (λ q3 g3 (d3, new3, t3).
                    store_texts q1 q2 q3 _ _ _ code ext root new1 new2 new3 t1 t2 t3))))
