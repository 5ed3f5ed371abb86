-- ===== src/Account/Fills/Once.antt =====
-- A fill counts once: the size of an order is the sum over the fills that are new, and a message that
-- arrives again changes nothing.
use hyper_basis.Prelude.{
  ◌-◌, ◌≤◌, ◌≡◌, refl, ap, sym, ◌∙◌, ◌==◌, String, true, false, List, [], ◌∷◌, arith, str_eq,
  eq_iff, length, ltb, All, if◌then◌else◌, Bool-cases, inl, inr,
}
use hyper_basis.Prelude.Float.{Float64, nought}
use hyper_basis.Prelude.Numerals.{Numerals}
use hyper_basis.Prelude.Dict.{has, count, str_eq-same, lookup, lookup-insert}
use hyper_basis.Account.Fills.{
  Fill, FillBook, count_fill, evict_keys, evict_orders, evict, add_fills, record_fill, record_fills,
  fill_key, is_old, size_or_zero,
}

module _ {F : Type 0} ⦃fl : Float64 F⦄ ⦃ns : Numerals F⦄ where
  -- The fills that count: with an order and a size, and with a key that does not stand among those seen
  -- before them.
  unfoldable pub fresh : List String → List (Fill F) → List (Fill F)
  fresh seen [] = []
  fresh seen (fill ∷ fills) =
      let skipped = fresh seen fills in
      let counted = fill ∷ fresh (fill_key fill ∷ seen) fills in
      if str_eq fill.order_id ""
      then skipped
      else if fl.eq fill.size nought
      then skipped
      else if count (fill_key fill) seen == 0
      then counted
      else skipped

  -- A fill that is passed over is not among those that count, and one that is not passed over is.
  pub fresh-old :
      (fill : Fill F) (fills : List (Fill F)) (seen : List String)
      → is_old fill seen ≡ true
      → fresh seen (fill ∷ fills) ≡ fresh seen fills
  unfolding fresh is_old has
  fresh-old fill fills seen h = ground (arith, h)

  pub fresh-new :
      (fill : Fill F) (fills : List (Fill F)) (seen : List String)
      → is_old fill seen ≡ false
      → fresh seen (fill ∷ fills) ≡ fill ∷ fresh (fill_key fill ∷ seen) fills
  unfolding fresh is_old has
  fresh-new fill fills seen h = ground (arith, h)

  -- What the fills of an order add to the size x.
  unfoldable pub total : String → F → List (Fill F) → F
  total id x [] = x
  total id x (fill ∷ fills) =
      total id (if str_eq fill.order_id id then fl.add x (fl.abs fill.size) else x) fills

  pub record_fill_old :
      (fill : Fill F) (book : FillBook F)
      → is_old fill book.seen_fill_keys ≡ true
      → record_fill fill book ≡ book
  unfolding record_fill
  record_fill_old fill book h = rw h refl

  pub record_fill_new :
      (fill : Fill F) (book : FillBook F)
      → is_old fill book.seen_fill_keys ≡ false
      → record_fill fill book ≡ count_fill (fill_key fill) fill book
  unfolding record_fill
  record_fill_new fill book h = rw h refl

  -- The size of an order after the fills.
  abbrev size_after : String → List (Fill F) → FillBook F → F
  size_after id fills book = size_or_zero (lookup id (record_fills fills book).fills_by_order_id)

  count_fill_size :
      (id key : String) (fill : Fill F) (book : FillBook F)
      → let before = size_or_zero (lookup id book.fills_by_order_id) in
        size_or_zero (lookup id (count_fill key fill book).fills_by_order_id)
        ≡ (if str_eq fill.order_id id then fl.add before (fl.abs fill.size) else before)
  count_fill_size id key fill book = elim (Bool-cases (str_eq fill.order_id id)) [
    | inl e ↦ rw (lookup-insert, e, (eq_iff fill.order_id id).0 e) refl
    | inr e ↦ rw (lookup-insert, e) refl
  ]

  -- When the loop over the fills of a message is done, and before any order is dropped, the size of an
  -- order is its size before plus the sizes, without their signs and in the order of the message, of the
  -- order's fills that have an id and a size and whose key is neither among those seen before nor the key
  -- of an earlier fill of the message that counts.
  pub record_fills-total :
      (id : String) (fills : List (Fill F)) (book : FillBook F)
      → size_or_zero (lookup id (record_fills fills book).fills_by_order_id)
        ≡ total id
            (size_or_zero (lookup id book.fills_by_order_id))
            (fresh book.seen_fill_keys fills)
  unfolding record_fills fresh total
  record_fills-total id [] book = refl
  record_fills-total id (fill ∷ fills) book = elim (Bool-cases (is_old fill book.seen_fill_keys)) [
    | inl e ↦
        ap (size_after id fills) (record_fill_old fill book e)
        ∙ record_fills-total id fills book
        ∙ ap (total id (size_or_zero (lookup id book.fills_by_order_id)))
            (sym (fresh-old fill fills book.seen_fill_keys e))
    | inr e ↦
        let after = count_fill (fill_key fill) fill book in
        ap (size_after id fills) (record_fill_new fill book e)
        ∙ record_fills-total id fills after
        ∙ ap (λ x. total id x (fresh after.seen_fill_keys fills))
            (count_fill_size id (fill_key fill) fill book)
        ∙ ap (total id (size_or_zero (lookup id book.fills_by_order_id)))
            (sym (fresh-new fill fills book.seen_fill_keys e))
  ]

  -- The fills are old to the book.
  abbrev AllOld : List (Fill F) → FillBook F → Type 0
  AllOld fills book = All (λ fill. is_old fill book.seen_fill_keys ≡ true) fills

  is_old_stays :
      (fill : Fill F) (key : String) (seen : List String)
      → is_old fill seen ≡ true
      → is_old fill (key ∷ seen) ≡ true
  unfolding is_old has count
  is_old_stays fill key seen h = ground (arith, h)

  is_old_own : (fill : Fill F) (seen : List String) → is_old fill (fill_key fill ∷ seen) ≡ true
  unfolding is_old has count
  is_old_own fill seen = ground (arith, str_eq-same (fill_key fill))

  record_fill-is_old :
      (fill next : Fill F) (book : FillBook F)
      → is_old fill book.seen_fill_keys ≡ true
      → is_old fill (record_fill next book).seen_fill_keys ≡ true
  unfolding record_fill
  record_fill-is_old fill next book h = elim (Bool-cases (is_old next book.seen_fill_keys)) [
    | inl e ↦ rw e h
    | inr e ↦ rw e (is_old_stays fill (fill_key next) book.seen_fill_keys h)
  ]

  record_fills-is_old :
      (fill : Fill F) (fills : List (Fill F)) (book : FillBook F)
      → is_old fill book.seen_fill_keys ≡ true
      → is_old fill (record_fills fills book).seen_fill_keys ≡ true
  unfolding record_fills
  record_fills-is_old fill [] book h = h
  record_fills-is_old fill (next ∷ fills) book h =
      record_fills-is_old fill fills (record_fill next book) (record_fill-is_old fill next book h)

  recorded_is_old :
      (fill : Fill F) (book : FillBook F)
      → is_old fill (record_fill fill book).seen_fill_keys ≡ true
  unfolding record_fill
  recorded_is_old fill book = elim (Bool-cases (is_old fill book.seen_fill_keys)) [
    | inl e ↦ rw e e
    | inr e ↦ rw e (is_old_own fill book.seen_fill_keys)
  ]

  record_fills-AllOld :
      (fills : List (Fill F)) (book : FillBook F) → AllOld fills (record_fills fills book)
  unfolding record_fills
  record_fills-AllOld [] book = tt
  record_fills-AllOld (fill ∷ fills) book = (
    record_fills-is_old fill fills (record_fill fill book) (recorded_is_old fill book),
    record_fills-AllOld fills (record_fill fill book),
  )

  record_fills_old :
      (fills : List (Fill F)) (book : FillBook F)
      → AllOld fills book
      → record_fills fills book ≡ book
  unfolding record_fills
  record_fills_old [] book h = refl
  record_fills_old (fill ∷ fills) book (here, there) =
      ap (record_fills fills) (record_fill_old fill book here) ∙ record_fills_old fills book there

  evict_orders_few :
      (order elems : List String) (sizes : List (String × F))
      → length sizes ≤ 2000
      → evict_orders order elems sizes ≡ (order, elems, sizes)
  unfolding evict_orders
  evict_orders_few [] elems sizes h = refl
  evict_orders_few (id ∷ order) elems sizes h =
      let few : ltb 2000 (length sizes) ≡ false = ground (arith, h) in rw few refl

  evict_few :
      (book : FillBook F)
      → length book.seen_fill_order ≤ 2000
      → length book.fills_by_order_id ≤ 2000
      → evict book ≡ book
  unfolding evict evict_keys
  evict_few book h k =
      let none_over : length book.seen_fill_order - 2000 ≡ 0 = omega (arith, h) in
      rw
        (
          none_over,
          evict_orders_few book.fill_order_list book.fill_order_elem book.fills_by_order_id k,
        )
        refl

  -- A message of fills that arrives twice in a row counts once, as long as no more than 2000 keys and
  -- 2000 orders are held after it.
  pub add_fills_again :
      (fills : List (Fill F)) (book : FillBook F)
      → length (record_fills fills book).seen_fill_order ≤ 2000
      → length (record_fills fills book).fills_by_order_id ≤ 2000
      → add_fills fills (add_fills fills book) ≡ add_fills fills book
  unfolding add_fills
  add_fills_again [] book h k = refl
  add_fills_again (fill ∷ fills) book h k =
      let after = record_fills (fill ∷ fills) book in
      rw
        (
          evict_few after h k,
          record_fills_old (fill ∷ fills) after (record_fills-AllOld (fill ∷ fills) book),
          evict_few after h k,
        )
        refl
