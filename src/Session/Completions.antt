-- ===== src/Session/Completions.antt =====
-- runtime.py: what the engine makes of a fill that completes its order.
use liquidity_bot.Prelude.{
  ℕ, ◌≡◌, refl, ap, ◌∙◌, true, some, [], ◌∷◌, ◌++◌, arith, lookup, erase, lookup-erase_self,
}
use liquidity_bot.Float.{Float}
use liquidity_bot.Models.{Coid, Time, Fill, is_entry_intent}
use liquidity_bot.Orders.{filled, ManagedOrder, ok}
use liquidity_bot.Orders.Methods
use liquidity_bot.Orders.Methods.{is_complete, book_fill}
use liquidity_bot.Orders.Fills.{is_fillable, on_fill-completes}
use liquidity_bot.Session.{
  SessionEngine, entry_failed, on_order_terminal, tell_all, tell_ended, attribute, called,
  attributed, on_fill,
}

module _ {F : Type 0} ⦃f : Float F⦄ where
  entry_failed-filled :
      (now : Time) (o : ManagedOrder F) (e : SessionEngine F)
      → o.state ≡ filled
      → entry_failed now o e ≡ e
  unfolding entry_failed
  entry_failed-filled now o e h = ground arith

  -- the engine after the callback for a filled order
  abbrev pub forgotten : Coid → SessionEngine F → SessionEngine F
  forgotten k e = record e {
    pending_sig = erase k e.pending_sig;
    pending_exit = erase k e.pending_exit;
  }

  on_order_terminal-filled :
      (now : Time) (o : ManagedOrder F) (e : SessionEngine F)
      → o.state ≡ filled
      → on_order_terminal now o e ≡ forgotten o.request.client_order_id e
  unfolding on_order_terminal
  on_order_terminal-filled now o e h = rw (entry_failed-filled now o e h) refl

  pub called-completes :
      (now : Time) (fill : Fill F) (e : SessionEngine F) (o : ManagedOrder F)
      → e.om.ended ≡ []
      → o.request.client_order_id ≡ fill.client_order_id
      → lookup fill.client_order_id e.om.orders ≡ some o
      → is_fillable o.state ≡ true
      → is_complete (book_fill fill o) ≡ true
      → let om = record (Methods.on_fill now fill e.om).1 { ended = [] } in
        called now (Methods.on_fill now fill e.om) e
        ≡ (ok tt, forgotten fill.client_order_id (record e { om = om }))
  unfolding called tell_ended tell_all
  called-completes now fill e o quiet key stored open_state complete =
      let (o', done, _, told, state, _, _, _, request) =
        on_fill-completes now fill e.om o stored open_state complete in
      let om = (Methods.on_fill now fill e.om).1 in
      let one : om.ended ≡ o' ∷ [] = told ∙ ap (λ os. os ++ (o' ∷ [])) quiet in
      let base = record e { om = record om { ended = [] } } in
      let id : o'.request.client_order_id ≡ fill.client_order_id =
        ap (λ r. r.client_order_id) request ∙ key in
      let effect : on_order_terminal now o' base ≡ forgotten fill.client_order_id base =
        on_order_terminal-filled now o' base state ∙ ap (λ k. forgotten k base) id in
      rw (done, one, effect) refl

  -- With no callback waiting, a fill that completes an entry order which the venue may still fill does
  -- not raise and does not reach the positions: `on_fill` of the order manager calls
  -- `_on_order_terminal`, which drops the pending signal before `_on_fill` looks for it. The
  -- positions, their log, both risk managers and the state machine stay as they were.
  pub on_fill-loses :
      (now : Time) (today : ℕ) (fill : Fill F) (e : SessionEngine F) (o : ManagedOrder F)
      → e.om.ended ≡ []
      → o.request.client_order_id ≡ fill.client_order_id
      → is_entry_intent o.request.intent ≡ true
      → lookup fill.client_order_id e.om.orders ≡ some o
      → is_fillable o.state ≡ true
      → is_complete (book_fill fill o) ≡ true
      → ((on_fill now today fill e).0 ≡ ok tt)
        × ((on_fill now today fill e).1.pm ≡ e.pm)
        × ((on_fill now today fill e).1.pos_log ≡ e.pos_log)
        × ((on_fill now today fill e).1.risk ≡ e.risk)
        × ((on_fill now today fill e).1.risk2 ≡ e.risk2)
        × ((on_fill now today fill e).1.tracks ≡ e.tracks)
  unfolding on_fill attributed attribute
  on_fill-loses now today fill e o quiet key is_entry stored open_state complete =
      let (o', _, stored', _, _, _, _, _, request) =
        on_fill-completes now fill e.om o stored open_state complete in
      let entry' : is_entry_intent o'.request.intent ≡ true =
        ap (λ r. is_entry_intent r.intent) request ∙ is_entry in
      let gone = lookup-erase_self fill.client_order_id e.pending_sig in
      rw (called-completes now fill e o quiet key stored open_state complete, stored', entry', gone)
        (refl, refl, refl, refl, refl, refl)
