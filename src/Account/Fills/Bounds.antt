-- ===== src/Account/Fills/Bounds.antt =====
-- The book of the fills: its maps, its set and its lists hold the same keys, once each, and what they
-- hold is bounded.
use hyper_basis.Prelude.{
  ℕ, zero, suc, ◌-◌, ◌≤◌, ◌≡◌, refl, ◌≢◌, String, false, List, [], ◌∷◌, ◌++◌, arith, eq_iff, length,
  ltb, Bool-cases, inl, inr, length-append,
}
use hyper_basis.Prelude.Float.{Float64}
use hyper_basis.Prelude.Numerals.{Numerals}
use hyper_basis.Prelude.Dict.{
  count, has, has_none, has_some, remove, delete, keys, count-append, count-remove, length-remove,
  keys-delete, keys-insert, length-keys,
}
use hyper_basis.Account.Fills.{
  Fill, FillBook, count_fill, evict_keys, evict_orders, evict, add_fills, record_fill, record_fills,
  fill_key, is_old,
}

-- Two lists hold the same strings, each of them once.
pub record Same (xs ys : List String) : Type 0 where
  pub counts : (k : String) → count k xs ≡ count k ys
  pub once : (k : String) → count k ys ≤ 1
  pub lengths : length xs ≡ length ys

push-Same :
    (k : String) (xs ys : List String)
    → Same xs ys
    → count k ys ≡ 0
    → Same (k ∷ xs) (ys ++ (k ∷ []))
unfolding count
push-Same k xs ys h new = record {
  counts = λ j. ground (arith, count-append j ys (k ∷ []), h.counts j);
  once = λ j. ground (arith, count-append j ys (k ∷ []), h.once j, eq_iff k j, new);
  lengths = omega (arith, length-append ys (k ∷ []), h.lengths);
}

pub remove-Same : (k : String) (xs ys : List String) → Same xs (k ∷ ys) → Same (remove k xs) ys
unfolding count
remove-Same k xs ys h = record {
  counts = λ j. ground (arith, count-remove j k xs, h.counts j, h.once j, eq_iff k j);
  once = λ j. ground (arith, h.once j);
  lengths = ground (arith, length-remove k xs, h.counts k, h.once k, h.lengths, eq_iff k k);
}

move-Same :
    (k : String) (xs ys : List String)
    → Same xs ys
    → count k ys ≡ 1
    → Same xs (remove k ys ++ (k ∷ []))
unfolding count
move-Same k xs ys h held = record {
  counts = λ j. ground (
    arith,
    count-append j (remove k ys) (k ∷ []),
    count-remove j k ys,
    h.counts j,
    eq_iff k j,
    held,
  );
  once = λ j.
      ground
        (arith, count-append j (remove k ys) (k ∷ []), count-remove j k ys, h.once j, eq_iff k j);
  lengths =
      omega (arith, length-append (remove k ys) (k ∷ []), length-remove k ys, h.lengths, held);
}

set-Same :
    (k : String) (xs ys : List String)
    → Same xs ys
    → Same (k ∷ remove k xs) (remove k ys ++ (k ∷ []))
unfolding count
set-Same k xs ys h = record {
  counts = λ j. ground (
    arith,
    count-append j (remove k ys) (k ∷ []),
    count-remove j k ys,
    count-remove j k xs,
    h.counts j,
    eq_iff k j,
  );
  once = λ j.
      ground
        (arith, count-append j (remove k ys) (k ∷ []), count-remove j k ys, h.once j, eq_iff k j);
  lengths = omega (
    arith,
    length-append (remove k ys) (k ∷ []),
    length-remove k ys,
    length-remove k xs,
    h.lengths,
    h.counts k,
  );
}

pub remove_fresh : (k : String) (xs : List String) → count k xs ≡ 0 → remove k xs ≡ xs
unfolding count remove
remove_fresh k [] h = refl
remove_fresh k (x ∷ xs) h = ground (arith, remove_fresh k xs)

pub record IsConsistent {F : Type 0} (book : FillBook F) : Type 0 where
  pub seen : Same book.seen_fill_keys book.seen_fill_order
  pub elems : Same book.fill_order_elem book.fill_order_list
  pub sizes : Same (keys book.fills_by_order_id) book.fill_order_list

evict_keys-Same :
    (n : ℕ) (order seen : List String)
    → Same seen order
    → let (order', seen') = evict_keys n order seen in
      Same seen' order' × (length order' ≡ length order - n)
unfolding evict_keys
evict_keys-Same zero order seen h = (h, omega arith)
evict_keys-Same (suc n) [] seen h = (h, omega arith)
evict_keys-Same (suc n) (key ∷ order) seen h =
    let (same, short) = evict_keys-Same n order (remove key seen) (remove-Same key seen order h) in
    (same, omega (arith, short))

evict_orders-Same :
    {F : Type 0} (order elems : List String) (sizes : List (String × F))
    → Same elems order
    → Same (keys sizes) order
    → let (order', elems', sizes') = evict_orders order elems sizes in
      Same elems' order' × Same (keys sizes') order' × (length sizes' ≤ 2000)
unfolding evict_orders
evict_orders-Same [] elems sizes h k = (h, k, omega (arith, k.lengths, length-keys sizes))
evict_orders-Same (id ∷ order) elems sizes h k =
    let rest =
      evict_orders-Same order (remove id elems) (delete id sizes) (remove-Same id elems order h)
        (rw keys-delete (remove-Same id (keys sizes) order k)) in
    elim (Bool-cases (ltb 2000 (length sizes))) [
      | inl e ↦ rw e rest
      | inr e ↦ rw e (h, k, ground arith)
    ]

evict-IsConsistent :
    {F : Type 0} (book : FillBook F)
    → IsConsistent book
    → IsConsistent (evict book)
      × (length (evict book).seen_fill_order ≤ 2000)
      × (length (evict book).fills_by_order_id ≤ 2000)
unfolding evict
evict-IsConsistent book h =
    let (seen, short) =
      evict_keys-Same (length book.seen_fill_order - 2000) book.seen_fill_order book.seen_fill_keys
        h.seen in
    let (elems, sizes, few) =
      evict_orders-Same book.fill_order_list book.fill_order_elem book.fills_by_order_id h.elems
        h.sizes in
    (record { seen = seen; elems = elems; sizes = sizes }, omega (arith, short), few)

module _ {F : Type 0} ⦃fl : Float64 F⦄ ⦃ns : Numerals F⦄ where
  pub count_fill-IsConsistent :
      (key : String) (fill : Fill F) (book : FillBook F)
      → has key book.seen_fill_keys ≡ false
      → IsConsistent book
      → IsConsistent (count_fill key fill book)
  count_fill-IsConsistent key fill book new h =
      let id = fill.order_id in
      let order = book.fill_order_list in
      let seen =
        push-Same key book.seen_fill_keys book.seen_fill_order h.seen
          (omega (arith, h.seen.counts key, has_none key book.seen_fill_keys new)) in
      let sizes = set-Same id (keys book.fills_by_order_id) order h.sizes in
      elim (Bool-cases (has id book.fill_order_elem)) [
        | inl held ↦ rw held (record {
          seen = seen;
          elems = move-Same id book.fill_order_elem order h.elems (
              omega
                (arith, h.elems.counts id, h.elems.once id, has_some id book.fill_order_elem held));
          sizes = rw keys-insert sizes;
        })
        | inr fresh ↦
            let absent : count id order ≡ 0 =
              omega (arith, h.elems.counts id, has_none id book.fill_order_elem fresh) in
            rw fresh (record {
              seen = seen;
              elems = push-Same id book.fill_order_elem order h.elems absent;
              sizes = rw keys-insert (rw (remove_fresh id order absent) at sizes);
            })
      ]

  pub not_seen :
      (fill : Fill F) (seen : List String)
      → is_old fill seen ≡ false
      → has (fill_key fill) seen ≡ false
  unfolding is_old
  not_seen fill seen h = ground (arith, h)

  pub record_fill-IsConsistent :
      (fill : Fill F) (book : FillBook F) → IsConsistent book → IsConsistent (record_fill fill book)
  unfolding record_fill
  record_fill-IsConsistent fill book h = elim (Bool-cases (is_old fill book.seen_fill_keys)) [
    | inl e ↦ rw e h
    | inr e ↦
        rw e (
          count_fill-IsConsistent (fill_key fill) fill book (not_seen fill book.seen_fill_keys e) h)
  ]

  pub record_fills-IsConsistent :
      (fills : List (Fill F)) (book : FillBook F)
      → IsConsistent book
      → IsConsistent (record_fills fills book)
  unfolding record_fills
  record_fills-IsConsistent [] book h = h
  record_fills-IsConsistent (fill ∷ fills) book h =
      record_fills-IsConsistent fills (record_fill fill book) (record_fill-IsConsistent fill book h)

  -- Whatever fills a message reports, the book of the fills keeps its maps and lists in step: the same
  -- keys stand in the set and in the order of what was seen, the same orders in the map of the sizes, in
  -- the linked list and in the map of its elements, each of them once. When a message with fills is
  -- done, at most 2000 keys and at most 2000 orders are held.
  pub add_fills-IsConsistent :
      (fills : List (Fill F)) (book : FillBook F)
      → IsConsistent book
      → IsConsistent (add_fills fills book)
        × (fills ≢ []
            → (length (add_fills fills book).seen_fill_order ≤ 2000)
              × (length (add_fills fills book).fills_by_order_id ≤ 2000))
  unfolding add_fills
  add_fills-IsConsistent [] book h = (h, λ some. absurd (some refl))
  add_fills-IsConsistent (fill ∷ fills) book h =
      let (whole, keys, orders) =
        evict-IsConsistent (record_fills (fill ∷ fills) book)
          (record_fills-IsConsistent (fill ∷ fills) book h) in
      (whole, λ some. (keys, orders))
