-- ===== src/App/Operator/Offsets.antt =====
-- The offset that the operator's loop asks for next.
use hyper_basis.Prelude.{◌+◌, ◌-◌, ◌^◌, ◌<◌, List, [], ◌∷◌, arith, All, Bool-cases, inl, inr}
use hyper_basis.Prelude.Float.{Float64}
use hyper_basis.Prelude.Int.{ℤ, pos, negsuc, pos_part, neg_part, ◌+ℤ◌, ◌≤ℤ◌, leb_ℤ, wrap, +ℤ_parts}
use hyper_basis.Prelude.Numerals.{Numerals}
use hyper_basis.App.{App}
use hyper_basis.App.Operator.{
  Update, OperatorServices, handle_operator_update, handle_updates, advance,
}

-- An `int64` but for the largest one.
abbrev pub IsId : ℤ → Type 0
IsId (pos n) = n < 2 ^ 63 - 1
IsId (negsuc n) = n < 2 ^ 63

next_id : (id : ℤ) → IsId id → id +ℤ pos 1 ≤ℤ wrap (id +ℤ pos 1)
unfolding ◌+ℤ◌ wrap
next_id (pos n) h = ground (arith, h)
next_id (negsuc n) h = ground (arith, h)

module _ {F E : Type 0} ⦃fl : Float64 F⦄ ⦃ns : Numerals F⦄ (sv : OperatorServices F E) where
  advance_up :
      (upd : Update) (offset : ℤ) (e : E)
      → IsId upd.update_id
      → (offset ≤ℤ (advance sv upd offset e).0)
        × (upd.update_id +ℤ pos 1 ≤ℤ (advance sv upd offset e).0)
  unfolding advance
  advance_up upd offset e h =
      let id = upd.update_id in
      let parts = +ℤ_parts id (pos 1) in
      let up = next_id id h in
      elim (Bool-cases (leb_ℤ offset id)) [
        | inl p ↦
            let below : offset ≤ℤ id = ground (arith, p) in
            rw p (omega (arith, below, up, parts), up)
        | inr p ↦
            let above : pos_part id + neg_part offset < pos_part offset + neg_part id =
              ground (arith, p) in
            rw p (omega arith, omega (arith, above, parts))
      ]

  -- After an answer has been handled, the offset is no lower than before and above the id of every
  -- update of the answer, in whatever order they came, given that no id is the largest `int64`: what was
  -- handled is not asked for again.
  pub handle_updates_offset :
      (chat_id : ℤ) (allowed : List ℤ) (updates : List Update) (offset : ℤ) (a : App F) (e : E)
      → All (λ upd. IsId upd.update_id) updates
      → let (next, _, _) = handle_updates sv chat_id allowed updates offset a e in
        (offset ≤ℤ next) × All (λ upd. upd.update_id +ℤ pos 1 ≤ℤ next) updates
  unfolding handle_updates
  handle_updates_offset chat_id allowed [] offset a e h = (omega arith, tt)
  handle_updates_offset chat_id allowed (upd ∷ updates) offset a e (id, ids) =
      let (next, saved) = advance sv upd offset e in
      let (b, after) = handle_operator_update sv chat_id allowed upd a saved in
      let (up, above) = advance_up upd offset e id in
      let (more, others) = handle_updates_offset chat_id allowed updates next b after ids in
      (omega (arith, up, more), (omega (arith, above, more), others))
