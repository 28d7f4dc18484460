-- ===== src/Session/Partials.antt =====
-- runtime.py: what the engine makes of a fill that leaves a rest of its order, and the reason of an
-- exit.
use liquidity_bot.Prelude.{
  ℕ, ◌≡◌, refl, ap, ◌∙◌, true, false, some, [], arith, lookup, get_or, lookup-erase_self,
  lookup-insert_self,
}
use liquidity_bot.Float.{Float}
use liquidity_bot.Models.{Time, Fill, Signal, is_entry_intent}
use liquidity_bot.Orders.{ManagedOrder, ok}
use liquidity_bot.Orders.Methods
use liquidity_bot.Orders.Methods.{is_complete, book_fill}
use liquidity_bot.Orders.Fills.{is_fillable, on_fill-completes, on_fill-partial}
use liquidity_bot.Positions.{unnamed, ExitReason, on_entry_fill, on_exit_fill, opened, enlarged}
use liquidity_bot.Positions
use liquidity_bot.Session.{
  SessionEngine, tell_all, tell_ended, attribute, called, attributed, on_fill, enter, leave, share,
  book_trade,
}
use liquidity_bot.Session.Completions.{called-completes, forgotten}

module _ {F : Type 0} ⦃f : Float F⦄ where
  called-partial :
      (now : Time) (fill : Fill F) (e : SessionEngine F) (o : ManagedOrder F)
      → e.om.ended ≡ []
      → lookup fill.client_order_id e.om.orders ≡ some o
      → is_fillable o.state ≡ true
      → is_complete (book_fill fill o) ≡ false
      → let om = record (Methods.on_fill now fill e.om).1 { ended = [] } in
        called now (Methods.on_fill now fill e.om) e ≡ (ok tt, record e { om = om })
  unfolding called tell_ended tell_all
  called-partial now fill e o quiet stored open_state rest =
      let (o', done, _, told, _, _) = on_fill-partial now fill e.om o stored open_state rest in
      let none_ended : (Methods.on_fill now fill e.om).1.ended ≡ [] = told ∙ quiet in
      rw (done, none_ended) refl

  on_entry_fill-stored :
      (fill : Fill F) (sig : Signal F) (pm : Positions.PositionManager F)
      → lookup fill.symbol (on_entry_fill fill sig pm).positions
        ≡ some (Positions.found (lookup fill.symbol pm.positions) (opened fill sig) (enlarged fill))
  unfolding on_entry_fill
  on_entry_fill-stored fill sig pm = lookup-insert_self fill.symbol _ pm.positions

  enter-shares :
      (fill : Fill F) (sig : Signal F) (e : SessionEngine F)
      → let pos =
          Positions.found (lookup fill.symbol e.pm.positions) (opened fill sig) (enlarged fill) in
        (lookup fill.symbol (enter fill sig e).pm.positions ≡ some pos)
        × (lookup fill.symbol (enter fill sig e).risk.positions ≡ some pos)
  unfolding enter
  enter-shares fill sig e =
      let stored = on_entry_fill-stored fill sig e.pm in
      (stored, rw stored (lookup-insert_self fill.symbol _ e.risk.positions))

  -- With no callback waiting, a fill that leaves a rest of an entry order which the venue may still
  -- fill, and for which a signal is pending, opens the position of its symbol or enlarges it, and the
  -- risk manager holds the same position.
  pub on_fill-enters :
      (now : Time) (today : ℕ) (fill : Fill F) (sig : Signal F) (e : SessionEngine F)
      (o : ManagedOrder F)
      → e.om.ended ≡ []
      → is_entry_intent o.request.intent ≡ true
      → lookup fill.client_order_id e.om.orders ≡ some o
      → is_fillable o.state ≡ true
      → is_complete (book_fill fill o) ≡ false
      → lookup fill.client_order_id e.pending_sig ≡ some sig
      → let e' = (on_fill now today fill e).1 in
        let pos =
          Positions.found (lookup fill.symbol e.pm.positions) (opened fill sig) (enlarged fill) in
        ((on_fill now today fill e).0 ≡ ok tt)
        × (lookup fill.symbol e'.pm.positions ≡ some pos)
        × (lookup fill.symbol e'.risk.positions ≡ some pos)
  unfolding on_fill attributed attribute
  on_fill-enters now today fill sig e o quiet is_entry stored open_state rest pending =
      let (o', _, stored', _, _, request) =
        on_fill-partial now fill e.om o stored open_state rest in
      let entry' : is_entry_intent o'.request.intent ≡ true =
        ap (λ r. is_entry_intent r.intent) request ∙ is_entry in
      let om = record (Methods.on_fill now fill e.om).1 { ended = [] } in
      let (managed, shared) = enter-shares fill sig (record e { om = om }) in
      rw (called-partial now fill e o quiet stored open_state rest, stored', entry', pending)
        (refl, managed, shared)

  leave-pm :
      (now : Time) (today : ℕ) (fill : Fill F) (e : SessionEngine F)
      → (leave now today fill e).pm
        ≡ (on_exit_fill fill (get_or fill.client_order_id unnamed e.pending_exit) e.pm).0
  unfolding leave share book_trade
  leave-pm now today fill e = ground arith

  -- With no callback waiting, a fill that completes an order whose intent is not entry, and which the
  -- venue may still fill, reduces or closes the position under the default reason: the pending reason
  -- has been dropped like a pending signal.
  pub on_fill-unnamed :
      (now : Time) (today : ℕ) (fill : Fill F) (e : SessionEngine F) (o : ManagedOrder F)
      → e.om.ended ≡ []
      → o.request.client_order_id ≡ fill.client_order_id
      → is_entry_intent o.request.intent ≡ false
      → lookup fill.client_order_id e.om.orders ≡ some o
      → is_fillable o.state ≡ true
      → is_complete (book_fill fill o) ≡ true
      → ((on_fill now today fill e).0 ≡ ok tt)
        × ((on_fill now today fill e).1.pm ≡ (on_exit_fill fill unnamed e.pm).0)
  unfolding on_fill attributed attribute
  on_fill-unnamed now today fill e o quiet key is_exit stored open_state complete =
      let (o', _, stored', _, _, _, _, _, request) =
        on_fill-completes now fill e.om o stored open_state complete in
      let exit' : is_entry_intent o'.request.intent ≡ false =
        ap (λ r. is_entry_intent r.intent) request ∙ is_exit in
      let om = record (Methods.on_fill now fill e.om).1 { ended = [] } in
      let base = forgotten fill.client_order_id (record e { om = om }) in
      let gone = lookup-erase_self fill.client_order_id e.pending_exit in
      let by_default : get_or fill.client_order_id unnamed base.pending_exit ≡ unnamed =
        rw (get_or, gone) refl in
      rw (called-completes now fill e o quiet key stored open_state complete, stored', exit')
        (refl, leave-pm now today fill base ∙ ap (λ r. (on_exit_fill fill r e.pm).0) by_default)
