-- ===== src/Examples/Operator.antt =====
-- The operator's commands at concrete inputs.
use hyper_basis.Prelude.{◌≡◌, refl, String, true, some, List, [], ◌∷◌, arith, All}
use hyper_basis.Prelude.Int.{ℤ, pos, ◌+ℤ◌, ◌≤ℤ◌}
use hyper_basis.Prelude.Float.{Fixed, fixed}
use hyper_basis.App.Operator.{
  Update, Reply, AuditEvent, OperatorServices, handle_operator_update, handle_updates, is_allowed,
  is_member, set_paused, parse_operator_command,
}
use hyper_basis.App.Operator.Safety.{
  Handled, handle_operator_update-Handled, may_command, is_authorised,
}
use hyper_basis.App.Operator.Guarded.{IsGuarded, handle_updates-IsGuarded}
use hyper_basis.App.Operator.Offsets.{handle_updates_offset}
use hyper_basis.App.Operator.Pause.{says, pause_stops_orders}
use hyper_basis.App.{placed}
use hyper_basis.App.Tick.{tick}
use hyper_basis.Prelude.Text.{words}
use hyper_basis.Examples.Bench.{idle_app, idle_world, bench}
use hyper_basis.Examples.Messages.{decimal}

-- What was sent, what was audited and the offset that is stored.
abbrev Desk : Type 0
Desk = List (Reply Fixed) × List (AuditEvent Fixed) × ℤ

abbrev desk : OperatorServices Fixed Desk
desk = record {
  audit = λ event d. (d.0, event ∷ d.1, d.2);
  send = λ reply d. (reply ∷ d.0, d.1, d.2);
  stored_offset = λ d. some d.2;
  save_offset = λ offset d. (d.0, d.1, offset);
}

abbrev command : ℤ → ℤ → String → Update
command id user line = record {
  update_id = id;
  message = some (record {
    from = some (record { id = user; username = "ops" });
    chat = some (pos 100);
    text = line;
  });
}

abbrev updates : List Update
updates =
    command (pos 7) (pos 1) "/pause"
    ∷ command (pos 8) (pos 2) "/resume"
    ∷ command (pos 9) (pos 1) "/risk set max_open_orders=2"
    ∷ []

handle_operator_update-Handled_example :
    Handled desk
      (pos 100)
      (pos 1 ∷ [])
      (command (pos 8) (pos 2) "/resume").message
      idle_app
      ([], [], pos 8)
      (handle_operator_update desk
        (pos 100)
        (pos 1 ∷ [])
        (command (pos 8) (pos 2) "/resume")
        idle_app
        ([], [], pos 8))
handle_operator_update-Handled_example =
    handle_operator_update-Handled desk (pos 100) (pos 1 ∷ []) (command (pos 8) (pos 2) "/resume")
      idle_app ([], [], pos 8)

handle_updates-IsGuarded_example :
    IsGuarded
      (handle_updates desk
        (pos 100)
        (pos 1 ∷ [])
        updates
        (pos 7)
        idle_app
        ([], [], pos 7)).1.risk_override
handle_updates-IsGuarded_example =
    handle_updates-IsGuarded desk (pos 100) (pos 1 ∷ []) updates (pos 7) idle_app ([], [], pos 7) tt

handle_updates_offset_example :
    let (next, _, _) =
      handle_updates desk (pos 100) (pos 1 ∷ []) updates (pos 7) idle_app ([], [], pos 7) in
    (pos 7 ≤ℤ next) × All (λ upd. upd.update_id +ℤ pos 1 ≤ℤ next) updates
handle_updates_offset_example =
    handle_updates_offset desk (pos 100) (pos 1 ∷ []) updates (pos 7) idle_app ([], [], pos 7)
      (omega arith, (omega arith, (omega arith, tt)))

pause_stops_orders_example :
    let (_, b, _) =
      handle_updates desk
        (pos 100)
        (pos 1 ∷ [])
        (command (pos 7) (pos 1) "/Pause now" ∷ command (pos 8) (pos 2) "/resume" ∷ [])
        (pos 7)
        idle_world.app
        ([], [], pos 7) in
    (b ≡ set_paused true idle_world.app)
    × (placed (tick bench (record idle_world { app = b })).1.calls ≡ placed idle_world.calls)
unfolding may_command is_authorised is_allowed is_member says parse_operator_command words
pause_stops_orders_example =
    pause_stops_orders desk bench (pos 100) (pos 1 ∷ []) (command (pos 7) (pos 1) "/Pause now")
      (command (pos 8) (pos 2) "/resume" ∷ []) (pos 7) idle_world ([], [], pos 7) refl refl
      (refl, tt)
