-- ===== src/App/Operator.antt =====
-- internal/app/operator.go: the commands of the operator over Telegram. `OperatorServices` are the store
-- and the alerts. A reply is known by what it says, without the numbers that are printed into it, but
-- for the settings that `/risk show` prints. The times and ids of an audit event are left out.
pub mod Safety
pub mod Guarded
pub mod Pause
pub mod Offsets
use hyper_basis.Prelude.{
  ℕ, String, Bool, true, false, not, ◌&&◌, ◌||◌, Option, none, some, List, [], ◌∷◌, ◌++◌, str_eq,
  if◌then◌else◌,
}
use hyper_basis.Prelude.Float.{Float64}
use hyper_basis.Prelude.Int.{ℤ, pos, ltb_ℤ, leb_ℤ, eqb_ℤ, ◌+ℤ◌, wrap}
use hyper_basis.Prelude.Numerals.{Numerals}
use hyper_basis.Prelude.Result.{Err, Result, ok, err, risk_command_unknown}
use hyper_basis.Prelude.Text.{trim_space, lower_eq, words, after_slash}
use hyper_basis.Config.{RiskConfig}
use hyper_basis.App.{App}
use hyper_basis.App.Tick.{risk_config}
use hyper_basis.App.Overrides.{parse_risk_overrides, apply_risk_overrides, risk_configs_equal}

-- internal/alerts/telegram.go
pub record User : Type 0 where
  pub id : ℤ
  pub username : String

pub record Message : Type 0 where
  pub from : Option User
  pub chat : Option ℤ
  pub text : String

pub record Update : Type 0 where
  pub update_id : ℤ
  pub message : Option Message

pub data Reply (F : Type 0) : Type 0 where
  status help : Reply F
  trading_paused trading_already_paused : Reply F
  trading_resumed trading_already_active : Reply F
  risk_status : (effective : RiskConfig F) → (override : Option (RiskConfig F)) → Reply F
  risk_override_cleared risk_override_updated : Reply F
  command_failed : Err → Reply F

pub data AuditEvent (F : Type 0) : Type 0 where
  pause resume : (before after : Bool) → AuditEvent F
  risk_reset : (before : Option (RiskConfig F)) → AuditEvent F
  risk_set : (before after : Option (RiskConfig F)) → AuditEvent F

pub record OperatorServices (F E : Type 0) : Type 0 where
  pub audit : AuditEvent F → E → E
  pub send : Reply F → E → E
  -- `Get` and `Set` of the offset; a value that is missing or does not read as a number is `none`.
  pub stored_offset : E → Option ℤ
  pub save_offset : ℤ → E → E

-- The command and its arguments, if the text is one.
abbrev pub command_of : List String → Option (String × List String)
command_of [] = none
command_of (first ∷ args) = elim (after_slash first) [ none ↦ none | some cmd ↦ some (cmd, args) ]

unfoldable pub parse_operator_command : String → Option (String × List String)
unfolding words
parse_operator_command text = command_of (words text)

module _ {F : Type 0} where
  abbrev pub set_paused : Bool → App F → App F
  set_paused paused a = record a { paused = paused }

  abbrev pub set_risk_override : RiskConfig F → App F → App F
  set_risk_override risk a = record a { risk_override = some risk }

  abbrev pub clear_risk_override : App F → App F
  clear_risk_override a = record a { risk_override = none }

unfoldable pub is_member : ℤ → List ℤ → Bool
is_member id [] = false
is_member id (allowed ∷ more) = eqb_ℤ id allowed || is_member id more

unfoldable pub is_allowed : ℤ → List ℤ → Bool
is_allowed id [] = true
is_allowed id allowed = is_member id allowed

abbrev pub offset_or_nought : Option ℤ → ℤ
offset_or_nought none = pos 0
offset_or_nought (some n) = if ltb_ℤ n (pos 0) then pos 0 else n

module _ {F E : Type 0} ⦃fl : Float64 F⦄ ⦃ns : Numerals F⦄ (sv : OperatorServices F E) where
  -- The end of `/risk set`, given the settings that come out.
  unfoldable pub adopt : RiskConfig F → App F → App F
  adopt next a =
      if risk_configs_equal next a.cfg.risk then clear_risk_override a else set_risk_override next a

  unfoldable pub after_set : Result (RiskConfig F) → App F → E → Reply F × App F × E
  after_set (err x) a e = (command_failed x, a, e)
  after_set (ok next) a e =
      let b = adopt next a in
      (risk_override_updated, b, sv.audit (risk_set a.risk_override b.risk_override) e)

  unfoldable pub settings_for : Result (List (String × String)) → App F → Result (RiskConfig F)
  settings_for (err x) a = err x
  settings_for (ok overrides) a = apply_risk_overrides (risk_config a) overrides

  unfoldable pub handle_risk_command : List String → App F → E → Reply F × App F × E
  handle_risk_command [] a e = (risk_status (risk_config a) a.risk_override, a, e)
  handle_risk_command (sub ∷ args) a e =
      if lower_eq sub "show"
      then (risk_status (risk_config a) a.risk_override, a, e)
      else if lower_eq sub "reset"
      then (risk_override_cleared, clear_risk_override a, sv.audit (risk_reset a.risk_override) e)
      else if lower_eq sub "set"
      then after_set (settings_for (parse_risk_overrides args) a) a e
      else (command_failed risk_command_unknown, a, e)

  -- The reply looks at what `setPaused` returns.
  abbrev pub pause_trading : App F → E → Reply F × App F × E
  pause_trading a e =
      let b = set_paused true a in
      (
        if b.paused then trading_paused else trading_already_paused,
        b,
        sv.audit (pause a.paused b.paused) e,
      )

  abbrev pub resume_trading : App F → E → Reply F × App F × E
  resume_trading a e =
      let b = set_paused false a in
      (
        if not b.paused then trading_resumed else trading_already_active,
        b,
        sv.audit (resume a.paused b.paused) e,
      )

  unfoldable pub handle_operator_command : String → List String → App F → E → Reply F × App F × E
  handle_operator_command cmd args a e =
      if lower_eq cmd "status"
      then (status, a, e)
      else if lower_eq cmd "pause"
      then pause_trading a e
      else if lower_eq cmd "resume"
      then resume_trading a e
      else if lower_eq cmd "risk"
      then handle_risk_command args a e
      else (help, a, e)

  abbrev pub respond : Reply F × App F × E → App F × E
  respond (reply, a, e) = (a, sv.send reply e)

  unfoldable pub obey : Option (String × List String) → App F → E → App F × E
  obey none a e = (a, e)
  obey (some (cmd, args)) a e = respond (handle_operator_command cmd args a e)

  unfoldable pub handle_text : ℤ → List ℤ → Option User → Option ℤ → String → App F → E → App F × E
  handle_text chat_id allowed (some from) (some chat) text a e =
      if eqb_ℤ chat chat_id && is_allowed from.id allowed
      then obey (parse_operator_command text) a e
      else (a, e)
  handle_text chat_id allowed _ _ text a e = (a, e)

  unfoldable pub handle_any : ℤ → List ℤ → Option Message → App F → E → App F × E
  handle_any chat_id allowed none a e = (a, e)
  handle_any chat_id allowed (some msg) a e =
      handle_text chat_id allowed msg.from msg.chat msg.text a e

  unfoldable pub handle_operator_update : ℤ → List ℤ → Update → App F → E → App F × E
  handle_operator_update chat_id allowed upd a e = handle_any chat_id allowed upd.message a e

  unfoldable pub load_operator_offset : E → ℤ
  load_operator_offset e = offset_or_nought (sv.stored_offset e)

  -- `offset = upd.UpdateID + 1`, and the write of it, for an update that is new.
  unfoldable pub advance : Update → ℤ → E → ℤ × E
  advance upd offset e =
      let next = wrap (upd.update_id +ℤ pos 1) in
      if leb_ℤ offset upd.update_id then (next, sv.save_offset next e) else (offset, e)

  -- The updates of one answer.
  unfoldable pub handle_updates : ℤ → List ℤ → List Update → ℤ → App F → E → ℤ × App F × E
  handle_updates chat_id allowed [] offset a e = (offset, a, e)
  handle_updates chat_id allowed (upd ∷ updates) offset a e =
      let (next, saved) = advance upd offset e in
      let (b, after) = handle_operator_update chat_id allowed upd a saved in
      handle_updates chat_id allowed updates next b after
