-- ===== src/App/Operator/Pause.antt =====
-- The command `/pause` stops the trading.
use hyper_basis.Prelude.{
  ℕ, ◌≡◌, refl, ap, ◌∙◌, String, Bool, true, false, Option, none, some, List, [], ◌∷◌, arith, All,
}
use hyper_basis.Prelude.Float.{Float64}
use hyper_basis.Prelude.Int.{ℤ}
use hyper_basis.Prelude.Numerals.{Numerals}
use hyper_basis.Prelude.Text.{lower_eq, lowered, same}
use hyper_basis.App.{App, World, Services, placed}
use hyper_basis.App.Tick.{tick}
use hyper_basis.App.Tick.Decision.{tick_paused}
use hyper_basis.App.Operator.{
  User, Message, Update, OperatorServices, handle_operator_update, handle_any, handle_text, obey,
  handle_operator_command, parse_operator_command, handle_updates, advance, set_paused,
}
use hyper_basis.App.Operator.Safety.{is_authorised, may_command, handle_operator_update_refused}

same-≡ : (s t : List ℕ) → same s t ≡ true → s ≡ t
same-≡ [] [] h = refl
same-≡ [] (d ∷ t) h = absurd (cc h)
same-≡ (c ∷ s) [] h = absurd (cc h)
same-≡ (c ∷ s) (d ∷ t) h =
    let first : c ≡ d = ground (arith, h) in
    let rest : same s t ≡ true = ground (arith, h) in rw first (ap (λ l. d ∷ l) (same-≡ s t rest))

-- A command of this name.
abbrev pub is_named : String → Option (String × List String) → Bool
is_named word none = false
is_named word (some (cmd, args)) = lower_eq cmd word

unfoldable pub says : String → Option Message → Bool
says word none = false
says word (some msg) = is_named word (parse_operator_command msg.text)

module _ {F E : Type 0} ⦃fl : Float64 F⦄ ⦃ns : Numerals F⦄ (sv : OperatorServices F E) where
  obey_pause :
      (cmd : Option (String × List String)) (a : App F) (e : E)
      → is_named "pause" cmd ≡ true
      → (obey sv cmd a e).0 ≡ set_paused true a
  unfolding obey handle_operator_command
  obey_pause none a e h = absurd (cc h)
  obey_pause (some (cmd, args)) a e h =
      let word : lowered cmd ≡ lowered "pause" = same-≡ (lowered cmd) (lowered "pause") h in
      rw word refl

  handle_text_pause :
      (chat_id : ℤ) (allowed : List ℤ) (from : Option User) (chat : Option ℤ) (text : String)
      (a : App F) (e : E)
      → is_authorised chat_id allowed from chat ≡ true
      → is_named "pause" (parse_operator_command text) ≡ true
      → (handle_text sv chat_id allowed from chat text a e).0 ≡ set_paused true a
  unfolding handle_text is_authorised
  handle_text_pause chat_id allowed none chat text a e h k = absurd (cc h)
  handle_text_pause chat_id allowed (some from) none text a e h k = absurd (cc h)
  handle_text_pause chat_id allowed (some from) (some chat) text a e h k =
      rw h (obey_pause (parse_operator_command text) a e k)

  handle_any_pause :
      (chat_id : ℤ) (allowed : List ℤ) (m : Option Message) (a : App F) (e : E)
      → may_command chat_id allowed m ≡ true
      → says "pause" m ≡ true
      → (handle_any sv chat_id allowed m a e).0 ≡ set_paused true a
  unfolding handle_any may_command says
  handle_any_pause chat_id allowed none a e h k = absurd (cc h)
  handle_any_pause chat_id allowed (some msg) a e h k =
      handle_text_pause chat_id allowed msg.from msg.chat msg.text a e h k

  refused_updates :
      (chat_id : ℤ) (allowed : List ℤ) (updates : List Update) (offset : ℤ) (a : App F) (e : E)
      → All (λ upd. may_command chat_id allowed upd.message ≡ false) updates
      → (handle_updates sv chat_id allowed updates offset a e).1 ≡ a
  unfolding handle_updates
  refused_updates chat_id allowed [] offset a e h = refl
  refused_updates chat_id allowed (upd ∷ updates) offset a e (here, there) =
      let (next, saved) = advance sv upd offset e in
      let (b, after) = handle_operator_update sv chat_id allowed upd a saved in
      refused_updates chat_id allowed updates next b after there
      ∙ ap (λ (r : App F × E). r.0)
          (handle_operator_update_refused sv chat_id allowed upd a saved here)

module _ {F E D : Type 0} ⦃fl : Float64 F⦄ ⦃ns : Numerals F⦄ (sv : OperatorServices F D)
    (bot : Services F E) where
  -- When an update that may command the bot says `/pause`, in any case of letters, and the updates that
  -- follow it in the answer may not command the bot, the bot is afterwards as before but paused; and a
  -- tick of that bot, in whatever environment, places no order.
  pub pause_stops_orders :
      (chat_id : ℤ) (allowed : List ℤ) (upd : Update) (later : List Update) (offset : ℤ)
      (w : World F E) (d : D)
      → may_command chat_id allowed upd.message ≡ true
      → says "pause" upd.message ≡ true
      → All (λ other. may_command chat_id allowed other.message ≡ false) later
      → let (_, b, _) = handle_updates sv chat_id allowed (upd ∷ later) offset w.app d in
        (b ≡ set_paused true w.app)
        × (placed (tick bot (record w { app = b })).1.calls ≡ placed w.calls)
  unfolding handle_updates handle_operator_update
  pause_stops_orders chat_id allowed upd later offset w d h k l =
      let (next, saved) = advance sv upd offset d in
      let (b, after) = handle_operator_update sv chat_id allowed upd w.app saved in
      let paused : (handle_updates sv chat_id allowed later next b after).1
          ≡ set_paused true w.app =
        refused_updates sv chat_id allowed later next b after l
        ∙ handle_any_pause sv chat_id allowed upd.message w.app saved h k in
      (
        paused,
        tick_paused bot
            (record w { app = (handle_updates sv chat_id allowed later next b after).1 })
            (ap (λ (x : App F). x.paused) paused),
      )
