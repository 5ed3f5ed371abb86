-- ===== src/Account/Fills/Newest.antt =====
-- Which orders the book of the fills keeps when it holds too many.
use mathlib.Core.List.{append-nil, append_assoc}
use hyper_basis.Prelude.{
  ◌+◌, ◌-◌, ◌≤◌, ◌<◌, ◌≡◌, refl, sym, subst, ap, ◌∙◌, String, true, false, none, List, [], ◌∷◌,
  ◌++◌, arith, str_eq, eq_iff, ◌==◌, if◌then◌else◌, length, ltb, Bool-cases, inl, inr,
}
use hyper_basis.Prelude.Dict.{
  count, has, has_none, remove, lookup, delete, keys, lookup-delete, keys-delete, length-keys,
  str_eq-same, count-append, count-remove,
}
use hyper_basis.Prelude.Float.{Float64}
use hyper_basis.Prelude.Numerals.{Numerals}
use hyper_basis.Account.Fills.{
  Fill, FillBook, evict_orders, evict, count_fill, record_fills, add_fills, is_old, fill_key,
}
use hyper_basis.Account.Fills.Once.{fresh, fresh-old, fresh-new, record_fill_old, record_fill_new}
use hyper_basis.Account.Fills.Bounds.{
  Same, IsConsistent, remove-Same, remove_fresh, count_fill-IsConsistent, not_seen,
  record_fills-IsConsistent,
}

module _ {F : Type 0} where
  -- The orders that are dropped stand before those that are kept; of the sizes that are left, the ones of
  -- the dropped orders are gone and the others are as before; no order more than needed is dropped.
  pub record Split (order kept : List String) (sizes left : List (String × F)) : Type 0 where
    pub dropped : List String
    pub whole : order ≡ dropped ++ kept
    pub gone : (id : String) → 1 ≤ count id dropped → lookup id left ≡ none
    pub same : (id : String) → count id dropped ≡ 0 → lookup id left ≡ lookup id sizes
    pub exact : length dropped ≡ length sizes - 2000

  keep_all :
      (order : List String) (sizes : List (String × F))
      → length sizes ≤ 2000
      → Split order order sizes sizes
  unfolding count
  keep_all order sizes h = record {
    dropped = [];
    whole = refl;
    gone = λ id some. ground (arith, some);
    same = λ id none. refl;
    exact = omega (arith, h);
  }

  drop_first :
      (id : String) (order kept : List String) (sizes left : List (String × F))
      → 2000 < length sizes
      → length (delete id sizes) + 1 ≡ length sizes
      → Split order kept (delete id sizes) left
      → Split (id ∷ order) kept sizes left
  unfolding count
  drop_first id order kept sizes left many one s = record {
    dropped = id ∷ s.dropped;
    whole = ap (λ ids. id ∷ ids) s.whole;
    gone = λ j held. elim (Bool-cases (ltb 0 (count j s.dropped))) [
      | inl e ↦ s.gone j (ground arith)
      | inr e ↦
          let absent : count j s.dropped ≡ 0 = ground arith in
          let here : str_eq id j ≡ true = ground (arith, held) in
          s.same j absent ∙ lookup-delete id j sizes ∙ rw here refl
    ];
    same = λ j none.
        let absent : count j s.dropped ≡ 0 = ground (arith, none) in
        let other : str_eq id j ≡ false = ground (arith, none) in
        s.same j absent ∙ lookup-delete id j sizes ∙ rw other refl;
    exact = omega (arith, s.exact);
  }

  evict_orders-Split :
      (order elems : List String) (sizes : List (String × F))
      → Same (keys sizes) order
      → let (kept, elems', left) = evict_orders order elems sizes in Split order kept sizes left
  unfolding evict_orders
  evict_orders-Split [] elems sizes h =
      keep_all [] sizes (omega (arith, h.lengths, length-keys sizes))
  evict_orders-Split (id ∷ order) elems sizes h =
      let less = remove-Same id (keys sizes) order h in
      let rest =
        evict_orders-Split order (remove id elems) (delete id sizes) (rw keys-delete less) in
      elim (Bool-cases (ltb 2000 (length sizes))) [
        | inl e ↦
            let left = evict_orders order (remove id elems) (delete id sizes) in
            rw e (
              drop_first id order left.0 sizes left.2 (ground arith)
                (omega (
                  arith,
                  h.lengths,
                  less.lengths,
                  length-keys sizes,
                  length-keys (delete id sizes),
                  ap length (keys-delete id sizes),
                ))
                rest)
        | inr e ↦ rw e (keep_all (id ∷ order) sizes (ground arith))
      ]

  pub evict-Split :
      (book : FillBook F)
      → IsConsistent book
      → Split book.fill_order_list
          (evict book).fill_order_list
          book.fills_by_order_id
          (evict book).fills_by_order_id
  unfolding evict
  evict-Split book h =
      evict_orders-Split book.fill_order_list book.fill_order_elem book.fills_by_order_id h.sizes

-- Of the ids of a history, each that occurs, in the order of their last occurrences.
unfoldable pub latest : List String → List String
latest [] = []
latest (id ∷ ids) = let rest = latest ids in if count id ids == 0 then id ∷ rest else rest

latest-once : (ids : List String) → ((k : String) → count k ids ≤ 1) → latest ids ≡ ids
unfolding latest count
latest-once [] h = refl
latest-once (id ∷ ids) h =
    let rest = latest-once ids (λ k. ground (arith, h k)) in
    let new : count id ids ≡ 0 = ground (arith, h id, str_eq-same id) in rw (new, rest) refl

-- An id that occurs later may be left out before.
latest-remove :
    (id : String) (ids later : List String)
    → latest (ids ++ (id ∷ later)) ≡ latest (remove id ids ++ (id ∷ later))
unfolding latest remove count
latest-remove id [] later = refl
latest-remove id (k ∷ ids) later = elim (Bool-cases (str_eq k id)) [
  | inl e ↦
      let later_again : (count k (ids ++ (id ∷ later)) == 0) ≡ false =
        ground (arith, count-append k ids (id ∷ later), eq_iff k id, eq_iff id k, e) in
      rw (later_again, e) (latest-remove id ids later)
  | inr e ↦
      let as_often : count k (ids ++ (id ∷ later)) ≡ count k (remove id ids ++ (id ∷ later)) =
        ground (
          arith,
          count-append k ids (id ∷ later),
          count-append k (remove id ids) (id ∷ later),
          count-remove k id ids,
          eq_iff k id,
          eq_iff id k,
          e,
        ) in
      rw (e, as_often, latest-remove id ids later) refl
]

unfoldable pub orders_of : {F : Type 0} → List (Fill F) → List String
orders_of [] = []
orders_of (fill ∷ fills) = fill.order_id ∷ orders_of fills

module _ {F : Type 0} ⦃fl : Float64 F⦄ ⦃ns : Numerals F⦄ where
  -- An order with a new fill moves to the end of the list.
  count_fill-last :
      (key : String) (fill : Fill F) (book : FillBook F)
      → IsConsistent book
      → (count_fill key fill book).fill_order_list
        ≡ remove fill.order_id book.fill_order_list ++ (fill.order_id ∷ [])
  count_fill-last key fill book h =
      let id = fill.order_id in
      let order = book.fill_order_list in
      elim (Bool-cases (has id book.fill_order_elem)) [
        | inl held ↦ rw held refl
        | inr new ↦
            let absent : count id order ≡ 0 =
              omega (arith, h.elems.counts id, has_none id book.fill_order_elem new) in
            rw (new, remove_fresh id order absent) refl
      ]

  record_fills-latest :
      (fills : List (Fill F)) (book : FillBook F)
      → IsConsistent book
      → (record_fills fills book).fill_order_list
        ≡ latest (book.fill_order_list ++ orders_of (fresh book.seen_fill_keys fills))
  unfolding record_fills fresh orders_of
  record_fills-latest [] book h =
      rw append-nil (sym (latest-once book.fill_order_list h.elems.once))
  record_fills-latest (fill ∷ fills) book h =
      let id = fill.order_id in
      let order = book.fill_order_list in
      let seen = book.seen_fill_keys in
      elim (Bool-cases (is_old fill seen)) [
        | inl e ↦
            ap (λ b. (record_fills fills b).fill_order_list) (record_fill_old fill book e)
            ∙ record_fills-latest fills book h
            ∙ ap (λ counted. latest (order ++ orders_of counted))
                (sym (fresh-old fill fills seen e))
        | inr e ↦
            let key = fill_key fill in
            let book' = count_fill key fill book in
            let rest = orders_of (fresh (key ∷ seen) fills) in
            ap (λ b. (record_fills fills b).fill_order_list) (record_fill_new fill book e)
            ∙ record_fills-latest fills book'
                (count_fill-IsConsistent key fill book (not_seen fill seen e) h)
            ∙ ap (λ ids. latest (ids ++ rest)) (count_fill-last key fill book h)
            ∙ ap latest (append_assoc (remove id order) (id ∷ []) rest)
            ∙ sym (latest-remove id order rest)
            ∙ ap (λ counted. latest (order ++ orders_of counted))
                (sym (fresh-new fill fills seen e))
      ]

  -- The end of a message with fills drops the orders that have gone longest without a new fill, as many as
  -- there are above 2000: with the orders held before the message, in the order of the list, and then
  -- those of the message's fills that count, in the order of the message, each order stands at its last
  -- occurrence, and the first of them are dropped. A dropped order has no size, and the size of every
  -- other order is the one that the fills have given it.
  pub add_fills-Split :
      (first : Fill F) (fills : List (Fill F)) (book : FillBook F)
      → IsConsistent book
      → let message = first ∷ fills in
        Split
          (latest (book.fill_order_list ++ orders_of (fresh book.seen_fill_keys message)))
          (add_fills message book).fill_order_list
          (record_fills message book).fills_by_order_id
          (add_fills message book).fills_by_order_id
  unfolding add_fills
  add_fills-Split first fills book h =
      let message = first ∷ fills in
      let done = record_fills message book in
      subst
        (λ order.
          Split order (evict done).fill_order_list done.fills_by_order_id
            (evict done).fills_by_order_id)
        (record_fills-latest message book h)
        (evict-Split done (record_fills-IsConsistent message book h))
