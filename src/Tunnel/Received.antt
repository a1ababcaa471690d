-- ===== src/Tunnel/Received.antt =====
-- The packets that a TUN device hands to a loop, and the device's state after a list of sends.
use x2ssh.Base.{ℕ, zero, suc, ◌≡◌, refl, sym, ap, ◌∙◌, List, [], ◌∷◌, All, arith}
use x2ssh.Base.{Option, none, some, Error, Result, ok, err}
use x2ssh.Proto.RoundTrip.{Fits}
use x2ssh.TunRs.{Tun, FitsBuffer, FullDuplex}

module _ (T : Tun) where
  abbrev pub take_received : Result (List ℕ) → List (List ℕ) → List (List ℕ)
  take_received (ok p) ps = p ∷ ps
  take_received (err e) ps = []

  -- The packets of the first `n` calls of `recv` with a buffer of 2048 bytes, up to an error.
  unfoldable pub received : ℕ → T.State → List (List ℕ)
  received zero t = []
  received (suc n) t = take_received (T.recv 2048 t).0 (received n (T.recv 2048 t).1)

  -- `send` for each packet, whatever it answers.
  unfoldable pub send_each : List (List ℕ) → T.State → T.State
  send_each [] t = t
  send_each (p ∷ ps) t = send_each ps (T.send p t).1

  -- `send` for each packet up to the first that fails.
  unfoldable pub send_until_error : List (List ℕ) → T.State → Option Error × T.State
  send_until_error [] t = (none, t)
  send_until_error (p ∷ ps) t = elim (T.send p t).0 [
    | ok _ ↦ send_until_error ps (T.send p t).1
    | err e ↦ (some e, (T.send p t).1)
  ]

module _ (T : Tun) (F : FitsBuffer T) where
  take_received-Fits :
      (t t' : T.State) (r : Result (List ℕ)) (ps : List (List ℕ))
      → T.recv 2048 t ≡ (r, t')
      → All Fits ps
      → All Fits (take_received T r ps)
  take_received-Fits t t' (ok p) ps h fits = (omega (arith, F.length-recv 2048 t t' p h), fits)
  take_received-Fits t t' (err e) ps h fits = tt

  pub received-Fits : (n : ℕ) (t : T.State) → All Fits (received T n t)
  unfolding received
  received-Fits zero t = tt
  received-Fits (suc n) t =
      take_received-Fits t (T.recv 2048 t).1 (T.recv 2048 t).0 _ refl (received-Fits n _)

module _ (T : Tun) (D : FullDuplex T) where
  pub received-incoming :
      (n : ℕ) (t t' : T.State) → D.incoming t ≡ D.incoming t' → received T n t ≡ received T n t'
  unfolding received
  received-incoming zero t t' same = refl
  received-incoming (suc n) t t' same =
      let next : D.incoming (T.recv 2048 t).1 ≡ D.incoming (T.recv 2048 t').1 =
        D.incoming-recv 2048 t
        ∙ ap (λ i. (D.take_in 2048 i).1) same
        ∙ sym (D.incoming-recv 2048 t') in
      let first : (T.recv 2048 t).0 ≡ (T.recv 2048 t').0 =
        D.recv-result 2048 t ∙ ap (λ i. (D.take_in 2048 i).0) same ∙ sym (D.recv-result 2048 t') in
      ap (λ r. take_received T r (received T n (T.recv 2048 t).1)) first
      ∙ ap (take_received T (T.recv 2048 t').0) (received-incoming n _ _ next)

module _ {T : Tun} (D : FullDuplex T) where
  abbrev pub put_all : List (List ℕ) → D.Outgoing → D.Outgoing
  put_all [] out = out
  put_all (p ∷ ps) out = put_all ps (D.put_out p out)
