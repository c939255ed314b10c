-- ===== src/Udp/Mux/Batches.antt =====
-- What RecvBatch takes from the queue of an open session.
use obsidian_vpn.Base.{
  ℕ, zero, suc, ◌≡◌, refl, ap, ◌∙◌, List, [], ◌∷◌, Bool, true, false, ◌&&◌, take, drop,
  if◌then◌else◌, arith,
}
use obsidian_vpn.Udp.Mux.{
  UdpSession, got, eof, recv_from, session_recv, drain_queued, batch, first_of, recv_batch,
}

not_taken {ℓ} : {A : Type ℓ} (b c : Bool) (x y : A) → b ≡ false → (if b && c then x else y) ≡ y
not_taken true c x y h = absurd (ground arith)
not_taken false c x y h = refl

drained :
    (u : UdpSession) (saw_done : ℕ → Bool) (room : ℕ) (queue : List (List ℕ))
    → u.done ≡ false
    → u.data_in ≡ queue
    → drain_queued u saw_done room queue ≡ (take room queue, record u { data_in = drop room queue })
unfolding drain_queued
drained u saw_done zero queue alive e = ap (λ q. ([], record u { data_in = q })) e
drained u saw_done (suc room) [] alive e = ap (λ q. ([], record u { data_in = q })) e
drained u saw_done (suc room) (p ∷ ps) alive e =
    let ih = drained (record u { data_in = ps }) saw_done room ps alive refl in
    let (taken, rest) = drain_queued (record u { data_in = ps }) saw_done room ps in
    not_taken u.done (saw_done room) ([], u) (p ∷ taken, rest) alive
    ∙ ap (λ (r : List (List ℕ) × UdpSession). (p ∷ r.0, r.1)) ih

-- RecvBatch on an open session with packets waiting takes them in the order of their arrival, as many as
-- there are or as fit, and leaves the rest in the queue.
pub recv_batch_in_order :
    (u : UdpSession) (saw_done : ℕ → Bool) (room : ℕ) (p : List ℕ) (ps : List (List ℕ))
    → u.done ≡ false
    → u.data_in ≡ p ∷ ps
    → recv_batch u saw_done (suc room)
      ≡ (batch (p ∷ take room ps), record u { data_in = drop room ps })
unfolding recv_batch session_recv recv_from first_of
recv_batch_in_order u saw_done room p ps alive e =
    let saw = saw_done (suc room) in
    let u' : UdpSession = record u { data_in = ps } in
    let one : recv_from u saw (p ∷ ps) ≡ (got p, u') =
      not_taken u.done saw (eof, u) (got p, u') alive in
    ap (λ q. first_of (recv_from u saw q) saw_done room) e
    ∙ ap (λ r. first_of r saw_done room) one
    ∙ ap (λ (r : List (List ℕ) × UdpSession). (batch (p ∷ r.0), r.1))
        (drained u' saw_done room ps alive refl)
