-- ===== src/Udp/Channel/Once.antt =====
-- No datagram is let through twice.
use obsidian_vpn.Base.{
  ℕ, ◌+◌, ◌<◌, ◌^◌, ◌≡◌, refl, sym, ap, ◌∙◌, inl, inr, List, [], ◌∷◌, true, false, Option, none,
  some, All, arith, Bool-cases,
}
use obsidian_vpn.Replay.{ReplayWindow}
use obsidian_vpn.Replay.Refinement.{elem, lets_through, remember, Represents, check-Refines}
use obsidian_vpn.Udp.Datagram.{Endpoint, admit, checked, unframe}
use obsidian_vpn.Udp.Channel.{keys_for, prev_keys, open_with, authentic, receive}

-- The endpoint after all datagrams of a list.
unfoldable pub receive_each : Endpoint → List (List ℕ) → Option Endpoint
receive_each ep [] = some ep
receive_each ep (y ∷ ys) = elim (receive ep y) [
  | none ↦ none
  | some (out, ep') ↦ receive_each ep' ys
]

-- The peer's counter has not come to its end.
abbrev pub HasCounter : Endpoint → List ℕ → Type 0
HasCounter ep y = (c : ℕ) (p : List ℕ) → authentic ep y ≡ some (c, p) → c + 1 < 2 ^ 64

abbrev with_window : Endpoint → ReplayWindow → Endpoint
with_window ep w = record ep { replay = w }

elem-remember : (h : List ℕ) (seq c : ℕ) → elem c h ≡ true → elem c (remember h seq) ≡ true
unfolding remember elem
elem-remember h seq c e = ground arith

marked : (h : List ℕ) (c : ℕ) → lets_through h c ≡ true → elem c (remember h c) ≡ true
unfolding remember elem
marked h c e = ground arith

seen_not_through : (h : List ℕ) (c : ℕ) → elem c h ≡ true → lets_through h c ≡ false
unfolding lets_through
seen_not_through h c e = ground arith

module _ (ep : Endpoint) where
  receive_lem :
      (w : ReplayWindow) (y : List ℕ)
      → receive (with_window ep w) y ≡ admit (with_window ep w) (authentic ep y)
  unfolding receive authentic keys_for prev_keys open_with
  receive_lem w y = refl

  -- One datagram: the window goes on to represent what was seen, and nothing seen is forgotten.
  record Round (w : ReplayWindow) (h : List ℕ) (y : List ℕ) : Type 0 where
    out : Option (List ℕ)
    window : ReplayWindow
    history : List ℕ
    done : receive (with_window ep w) y ≡ some (out, with_window ep window)
    represents : Represents window history
    kept : (c : ℕ) → elem c h ≡ true → elem c history ≡ true
    through :
        (q : List ℕ)
        → out ≡ some q
        → (c : ℕ) × (p : List ℕ) × (authentic ep y ≡ some (c, p)) × (elem c history ≡ true)

  receive-Round :
      (w : ReplayWindow) (h y : List ℕ) (o : Option (ℕ × List ℕ))
      → authentic ep y ≡ o
      → Represents w h
      → HasCounter ep y
      → Round w h y
  unfolding admit checked
  receive-Round w h y none e r low = record {
    out = none;
    window = w;
    history = h;
    done = receive_lem w y ∙ ap (admit (with_window ep w)) e;
    represents = r;
    kept = λ c k. k;
    through = λ q k. absurd (ground arith);
  }
  receive-Round w h y (some (c, p)) e r low =
      let (w', ran, r') = check-Refines w h c r (low c p e) in
      elim (Bool-cases (lets_through h c)) [
        | inl new ↦ record {
          out = some (unframe (with_window ep w) p);
          window = w';
          history = remember h c;
          done =
              receive_lem w y
              ∙ ap (admit (with_window ep w)) e
              ∙ ap (checked (with_window ep w) p) (ran ∙ ap (λ b. some (b, w')) new);
          represents = r';
          kept = λ x k. elem-remember h c x k;
          through = λ q k. (c, p, e, marked h c new);
        }
        | inr seen ↦ record {
          out = none;
          window = w';
          history = remember h c;
          done =
              receive_lem w y
              ∙ ap (admit (with_window ep w)) e
              ∙ ap (checked (with_window ep w) p) (ran ∙ ap (λ b. some (b, w')) seen);
          represents = r';
          kept = λ x k. elem-remember h c x k;
          through = λ q k. absurd (ground arith);
        }
      ]

  -- A list of datagrams.
  record Rounds (w : ReplayWindow) (h : List ℕ) (ys : List (List ℕ)) : Type 0 where
    window : ReplayWindow
    history : List ℕ
    done : receive_each (with_window ep w) ys ≡ some (with_window ep window)
    represents : Represents window history
    kept : (c : ℕ) → elem c h ≡ true → elem c history ≡ true

  receive_each-Rounds :
      (w : ReplayWindow) (h : List ℕ) (ys : List (List ℕ))
      → Represents w h
      → All (HasCounter ep) ys
      → Rounds w h ys
  unfolding receive_each
  receive_each-Rounds w h [] r low = record {
    window = w;
    history = h;
    done = refl;
    represents = r;
    kept = λ c k. k;
  }
  receive_each-Rounds w h (y ∷ ys) r low =
      let one = receive-Round w h y (authentic ep y) refl r low.0 in
      let rest = receive_each-Rounds one.window one.history ys one.represents low.1 in
      record {
        window = rest.window;
        history = rest.history;
        done = rw (one.done, receive_each) rest.done;
        represents = rest.represents;
        kept = λ c k. rest.kept c (one.kept c k);
      }

  again :
      (w : ReplayWindow) (h x : List ℕ) (c : ℕ) (p : List ℕ)
      → Represents w h
      → authentic ep x ≡ some (c, p)
      → c + 1 < 2 ^ 64
      → elem c h ≡ true
      → (w' : ReplayWindow) × (receive (with_window ep w) x ≡ some (none, with_window ep w'))
  unfolding admit checked
  again w h x c p r e low seen =
      let (w', ran, r') = check-Refines w h c r low in
      (
        w',
        receive_lem w x
            ∙ ap (admit (with_window ep w)) e
            ∙ ap (checked (with_window ep w) p)
                (ran ∙ ap (λ b. some (b, w')) (seen_not_through h c seen)),
      )

  -- A datagram that an endpoint has let through is not let through again, whatever datagrams come
  -- between, while its keys stay, its window is one that represents what was accepted, and no
  -- authentic datagram has the greatest uint64 as its counter. The endpoint ends with each of the datagrams.
  pub received_once :
      (h x payload : List ℕ) (ep1 : Endpoint) (ys : List (List ℕ))
      → Represents ep.replay h
      → receive ep x ≡ some (some payload, ep1)
      → HasCounter ep x
      → All (HasCounter ep) ys
      → (ep2 : Endpoint) × (ep3 : Endpoint) × (receive_each ep1 ys ≡ some ep2)
        × (receive ep2 x ≡ some (none, ep3))
  received_once h x payload ep1 ys r got low lows =
      let one = receive-Round ep.replay h x (authentic ep x) refl r low in
      let both : some (some payload, ep1) ≡ some (one.out, with_window ep one.window) =
        sym got ∙ one.done in
      let (c, p, e, seen) = one.through payload (cc both) in
      let rest = receive_each-Rounds one.window one.history ys one.represents lows in
      let (w', once) =
        again rest.window rest.history x c p rest.represents e (low c p e) (rest.kept c seen) in
      let same : ep1 ≡ with_window ep one.window = cc both in
      (
        with_window ep rest.window,
        with_window ep w',
        ap (λ z. receive_each z ys) same ∙ rest.done,
        once,
      )
