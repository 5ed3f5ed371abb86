-- ===== src/App/Operator/Guarded.antt =====
-- The override of the risk settings never holds a negative number.
use hyper_basis.Prelude.{
  ◌≡◌, refl, String, ◌&&◌, Option, none, some, List, [], ◌∷◌, Bool-cases, inl, inr,
}
use hyper_basis.Prelude.Float.{Float64}
use hyper_basis.Prelude.Int.{ℤ, eqb_ℤ}
use hyper_basis.Prelude.Numerals.{Numerals}
use hyper_basis.Prelude.Result.{Result, ok, err}
use hyper_basis.Prelude.Text.{lower_eq}
use hyper_basis.Config.{RiskConfig}
use hyper_basis.App.{App}
use hyper_basis.App.Tick.{risk_config}
use hyper_basis.App.Overrides.{parse_risk_overrides, risk_configs_equal}
use hyper_basis.App.Overrides.Fields.{IsValid, apply_risk_overrides-IsValid}
use hyper_basis.App.Operator.{
  User, Message, Update, OperatorServices, handle_operator_update, handle_any, handle_text,
  is_allowed, handle_operator_command, adopt, after_set, settings_for, handle_risk_command, obey,
  parse_operator_command, handle_updates, advance,
}

-- No setting of the override, if there is one, is negative.
abbrev pub IsGuarded : {F : Type 0} ⦃fl : Float64 F⦄ → Option (RiskConfig F) → Type 0
IsGuarded none = Unit {0}
IsGuarded (some risk) = IsValid risk

module _ {F E : Type 0} ⦃fl : Float64 F⦄ ⦃ns : Numerals F⦄ (sv : OperatorServices F E) where
  adopt-IsGuarded :
      (next : RiskConfig F) (a : App F) → IsValid next → IsGuarded (adopt sv next a).risk_override
  unfolding adopt
  adopt-IsGuarded next a h = elim (Bool-cases (risk_configs_equal next a.cfg.risk)) [
    | inl e ↦ rw e tt
    | inr e ↦ rw e h
  ]

  settings_for-IsValid :
      (r : Result (List (String × String))) (a : App F) (next : RiskConfig F)
      → settings_for sv r a ≡ ok next
      → IsValid next
  unfolding settings_for
  settings_for-IsValid (err x) a next h = absurd (cc h)
  settings_for-IsValid (ok overrides) a next h =
      apply_risk_overrides-IsValid (risk_config a) next overrides h

  after_set-IsGuarded :
      (r : Result (RiskConfig F)) (a : App F) (e : E)
      → ((next : RiskConfig F) → r ≡ ok next → IsValid next)
      → IsGuarded a.risk_override
      → IsGuarded (after_set sv r a e).1.risk_override
  unfolding after_set
  after_set-IsGuarded (err x) a e h k = k
  after_set-IsGuarded (ok next) a e h k = adopt-IsGuarded next a (h next refl)

  handle_risk_command-IsGuarded :
      (args : List String) (a : App F) (e : E)
      → IsGuarded a.risk_override
      → IsGuarded (handle_risk_command sv args a e).1.risk_override
  unfolding handle_risk_command
  handle_risk_command-IsGuarded [] a e h = h
  handle_risk_command-IsGuarded (sub ∷ args) a e h = elim (Bool-cases (lower_eq sub "show")) [
    | inl p ↦ rw p h
    | inr p ↦ elim (Bool-cases (lower_eq sub "reset")) [
      | inl q ↦ rw (p, q) tt
      | inr q ↦ elim (Bool-cases (lower_eq sub "set")) [
        | inl r ↦
            let set = parse_risk_overrides args in
            rw (p, q, r)
              (after_set-IsGuarded (settings_for sv set a) a e (settings_for-IsValid set a) h)
        | inr r ↦ rw (p, q, r) h
      ]
    ]
  ]

  handle_operator_command-IsGuarded :
      (cmd : String) (args : List String) (a : App F) (e : E)
      → IsGuarded a.risk_override
      → IsGuarded (handle_operator_command sv cmd args a e).1.risk_override
  unfolding handle_operator_command
  handle_operator_command-IsGuarded cmd args a e h = elim (Bool-cases (lower_eq cmd "status")) [
    | inl p ↦ rw p h
    | inr p ↦ elim (Bool-cases (lower_eq cmd "pause")) [
      | inl q ↦ rw (p, q) h
      | inr q ↦ elim (Bool-cases (lower_eq cmd "resume")) [
        | inl r ↦ rw (p, q, r) h
        | inr r ↦ elim (Bool-cases (lower_eq cmd "risk")) [
          | inl s ↦ rw (p, q, r, s) (handle_risk_command-IsGuarded args a e h)
          | inr s ↦ rw (p, q, r, s) h
        ]
      ]
    ]
  ]

  obey-IsGuarded :
      (cmd : Option (String × List String)) (a : App F) (e : E)
      → IsGuarded a.risk_override
      → IsGuarded (obey sv cmd a e).0.risk_override
  unfolding obey
  obey-IsGuarded none a e h = h
  obey-IsGuarded (some (cmd, args)) a e h = handle_operator_command-IsGuarded cmd args a e h

  handle_text-IsGuarded :
      (chat_id : ℤ) (allowed : List ℤ) (from : Option User) (chat : Option ℤ) (text : String)
      (a : App F) (e : E)
      → IsGuarded a.risk_override
      → IsGuarded (handle_text sv chat_id allowed from chat text a e).0.risk_override
  unfolding handle_text
  handle_text-IsGuarded chat_id allowed none chat text a e h = h
  handle_text-IsGuarded chat_id allowed (some from) none text a e h = h
  handle_text-IsGuarded chat_id allowed (some from) (some chat) text a e h =
      elim (Bool-cases (eqb_ℤ chat chat_id && is_allowed from.id allowed)) [
        | inl p ↦ rw p (obey-IsGuarded (parse_operator_command text) a e h)
        | inr p ↦ rw p h
      ]

  handle_any-IsGuarded :
      (chat_id : ℤ) (allowed : List ℤ) (m : Option Message) (a : App F) (e : E)
      → IsGuarded a.risk_override
      → IsGuarded (handle_any sv chat_id allowed m a e).0.risk_override
  unfolding handle_any
  handle_any-IsGuarded chat_id allowed none a e h = h
  handle_any-IsGuarded chat_id allowed (some msg) a e h =
      handle_text-IsGuarded chat_id allowed msg.from msg.chat msg.text a e h

  -- Whatever updates the operator's loop handles, the override of the risk settings, if there is one
  -- after them, holds no negative limit and no negative age, given that this is so before.
  pub handle_updates-IsGuarded :
      (chat_id : ℤ) (allowed : List ℤ) (updates : List Update) (offset : ℤ) (a : App F) (e : E)
      → IsGuarded a.risk_override
      → IsGuarded (handle_updates sv chat_id allowed updates offset a e).1.risk_override
  unfolding handle_updates handle_operator_update
  handle_updates-IsGuarded chat_id allowed [] offset a e h = h
  handle_updates-IsGuarded chat_id allowed (upd ∷ updates) offset a e h =
      let (next, saved) = advance sv upd offset e in
      let (b, after) = handle_operator_update sv chat_id allowed upd a saved in
      handle_updates-IsGuarded chat_id allowed updates next b after
        (handle_any-IsGuarded chat_id allowed upd.message a saved h)
