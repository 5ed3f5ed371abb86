-- ===== src/App/Operator/Safety.antt =====
-- Who can command the bot: exactly the listed senders of the configured chat.
use mathlib.Core.Bool.{false≢true}
use mathlib.Core.List.{Memᴰ}
use hyper_basis.Prelude.{
  ◌≡◌, ◌≢◌, ◌↔◌, refl, sym, subst, ◌∙◌, inl, inr, String, Bool, true, false, ◌&&◌, Option, none,
  some, List, [], ◌∷◌, arith, Bool-cases,
}
use hyper_basis.Prelude.Float.{Float64}
use hyper_basis.Prelude.Int.{ℤ, eqb_ℤ, eqb_ℤ-same, eqb_ℤ-refl}
use hyper_basis.Prelude.Numerals.{Numerals}
use hyper_basis.App.{App}
use hyper_basis.App.Operator.{
  User, Message, Update, OperatorServices, handle_operator_update, handle_any, handle_text,
  is_allowed, is_member, obey, parse_operator_command,
}

-- The sender of an update, if it comes from a chat and a sender that may command the bot.
unfoldable pub is_authorised : ℤ → List ℤ → Option User → Option ℤ → Bool
is_authorised chat_id allowed (some from) (some chat) =
    eqb_ℤ chat chat_id && is_allowed from.id allowed
is_authorised chat_id allowed _ _ = false

unfoldable pub may_command : ℤ → List ℤ → Option Message → Bool
may_command chat_id allowed none = false
may_command chat_id allowed (some msg) = is_authorised chat_id allowed msg.from msg.chat

module _ {F E : Type 0} ⦃fl : Float64 F⦄ ⦃ns : Numerals F⦄ (sv : OperatorServices F E) where
  handle_text_refused :
      (chat_id : ℤ) (allowed : List ℤ) (from : Option User) (chat : Option ℤ) (text : String)
      (a : App F) (e : E)
      → is_authorised chat_id allowed from chat ≡ false
      → handle_text sv chat_id allowed from chat text a e ≡ (a, e)
  unfolding handle_text is_authorised
  handle_text_refused chat_id allowed none chat text a e h = refl
  handle_text_refused chat_id allowed (some from) none text a e h = refl
  handle_text_refused chat_id allowed (some from) (some chat) text a e h = rw h refl

  handle_any_refused :
      (chat_id : ℤ) (allowed : List ℤ) (m : Option Message) (a : App F) (e : E)
      → may_command chat_id allowed m ≡ false
      → handle_any sv chat_id allowed m a e ≡ (a, e)
  unfolding handle_any may_command
  handle_any_refused chat_id allowed none a e h = refl
  handle_any_refused chat_id allowed (some msg) a e h =
      handle_text_refused chat_id allowed msg.from msg.chat msg.text a e h

  pub handle_operator_update_refused :
      (chat_id : ℤ) (allowed : List ℤ) (upd : Update) (a : App F) (e : E)
      → may_command chat_id allowed upd.message ≡ false
      → handle_operator_update sv chat_id allowed upd a e ≡ (a, e)
  unfolding handle_operator_update
  handle_operator_update_refused chat_id allowed upd a e h =
      handle_any_refused chat_id allowed upd.message a e h

-- A message from the configured chat whose sender is listed, if any users are.
abbrev IsSender : ℤ → List ℤ → Option User → Option ℤ → Type 0
IsSender chat_id allowed (some from) (some chat) =
    (chat ≡ chat_id) × (allowed ≢ [] → Memᴰ from.id allowed)
IsSender chat_id allowed _ _ = ⊥

abbrev pub IsCommander : ℤ → List ℤ → Option Message → Type 0
IsCommander chat_id allowed none = ⊥
IsCommander chat_id allowed (some msg) = IsSender chat_id allowed msg.from msg.chat

abbrev text_of : Option Message → String
text_of none = ""
text_of (some msg) = msg.text

member_listed : (id : ℤ) (users : List ℤ) → is_member id users ≡ true → Memᴰ id users
unfolding is_member
member_listed id [] h = absurd (false≢true h)
member_listed id (x ∷ xs) h = elim (Bool-cases (eqb_ℤ id x)) [
  | inl e ↦ Memᴰ.head (eqb_ℤ-same id x e)
  | inr e ↦ Memᴰ.tail (member_listed id xs (ground (arith, h, e)))
]

listed_member : (id : ℤ) (users : List ℤ) → Memᴰ id users → is_member id users ≡ true
unfolding is_member
listed_member id [] m = elim m [ ]
listed_member id (x ∷ xs) (Memᴰ.head e) = rw (e, eqb_ℤ-refl x) refl
listed_member id (x ∷ xs) (Memᴰ.tail m) = ground (arith, listed_member id xs m)

allowed_listed :
    (id : ℤ) (allowed : List ℤ) → is_allowed id allowed ≡ true → allowed ≢ [] → Memᴰ id allowed
unfolding is_allowed
allowed_listed id [] h listed = absurd (listed refl)
allowed_listed id (x ∷ xs) h listed = member_listed id (x ∷ xs) h

listed_allowed :
    (id : ℤ) (allowed : List ℤ) → (allowed ≢ [] → Memᴰ id allowed) → is_allowed id allowed ≡ true
unfolding is_allowed
listed_allowed id [] h = refl
listed_allowed id (x ∷ xs) h = listed_member id (x ∷ xs) (h (λ e. cc))

IsSender-is_authorised :
    (chat_id : ℤ) (allowed : List ℤ) (from : Option User) (chat : Option ℤ)
    → IsSender chat_id allowed from chat ↔ (is_authorised chat_id allowed from chat ≡ true)
unfolding is_authorised
IsSender-is_authorised chat_id allowed none chat = (absurd, λ h. false≢true h)
IsSender-is_authorised chat_id allowed (some from) none = (absurd, λ h. false≢true h)
IsSender-is_authorised chat_id allowed (some from) (some chat) = (
  λ s. rw (s.0, eqb_ℤ-refl chat_id, listed_allowed from.id allowed s.1) refl,
  λ h. (
    eqb_ℤ-same chat chat_id (ground (arith, h)),
    allowed_listed from.id allowed (ground (arith, h)),
  ),
)

IsCommander-may_command :
    (chat_id : ℤ) (allowed : List ℤ) (m : Option Message)
    → IsCommander chat_id allowed m ↔ (may_command chat_id allowed m ≡ true)
unfolding may_command
IsCommander-may_command chat_id allowed none = (absurd, λ h. false≢true h)
IsCommander-may_command chat_id allowed (some msg) =
    IsSender-is_authorised chat_id allowed msg.from msg.chat

module _ {F E : Type 0} ⦃fl : Float64 F⦄ ⦃ns : Numerals F⦄ (sv : OperatorServices F E) where
  -- What becomes of an update: the bot and the environment after it.
  pub data Handled (chat_id : ℤ) (allowed : List ℤ) (m : Option Message) (a : App F) (e : E)
      : App F × E → Type 0 where
    obeyed :
        IsCommander chat_id allowed m
        → Handled chat_id allowed m a e (obey sv (parse_operator_command (text_of m)) a e)
    ignored : ¬ IsCommander chat_id allowed m → Handled chat_id allowed m a e (a, e)

  handle_text_obeyed :
      (chat_id : ℤ) (allowed : List ℤ) (from : Option User) (chat : Option ℤ) (text : String)
      (a : App F) (e : E)
      → is_authorised chat_id allowed from chat ≡ true
      → handle_text sv chat_id allowed from chat text a e
        ≡ obey sv (parse_operator_command text) a e
  unfolding handle_text is_authorised
  handle_text_obeyed chat_id allowed none chat text a e h = absurd (false≢true h)
  handle_text_obeyed chat_id allowed (some from) none text a e h = absurd (false≢true h)
  handle_text_obeyed chat_id allowed (some from) (some chat) text a e h = rw h refl

  handle_any_obeyed :
      (chat_id : ℤ) (allowed : List ℤ) (m : Option Message) (a : App F) (e : E)
      → may_command chat_id allowed m ≡ true
      → handle_any sv chat_id allowed m a e ≡ obey sv (parse_operator_command (text_of m)) a e
  unfolding handle_any may_command
  handle_any_obeyed chat_id allowed none a e h = absurd (false≢true h)
  handle_any_obeyed chat_id allowed (some msg) a e h =
      handle_text_obeyed chat_id allowed msg.from msg.chat msg.text a e h

  -- The operator's loop obeys an update exactly when it is a message from the configured chat whose
  -- sender, when users are listed, is one of them: then the command of its text is carried out, if the
  -- text is one. Any other update changes nothing of the bot, is not answered and leaves no audit event.
  pub handle_operator_update-Handled :
      (chat_id : ℤ) (allowed : List ℤ) (upd : Update) (a : App F) (e : E)
      → Handled chat_id allowed upd.message a e (handle_operator_update sv chat_id allowed upd a e)
  unfolding handle_operator_update
  handle_operator_update-Handled chat_id allowed upd a e =
      let may = IsCommander-may_command chat_id allowed upd.message in
      elim (Bool-cases (may_command chat_id allowed upd.message)) [
        | inl h ↦
            subst (Handled chat_id allowed upd.message a e)
              (sym (handle_any_obeyed chat_id allowed upd.message a e h)) (obeyed (may.1 h))
        | inr h ↦
            subst (Handled chat_id allowed upd.message a e)
              (sym (handle_any_refused sv chat_id allowed upd.message a e h))
              (ignored (λ c. false≢true (sym h ∙ may.0 c)))
      ]
