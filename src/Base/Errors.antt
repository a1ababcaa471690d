-- ===== src/Base/Errors.antt =====
-- Errors as values, and actions on the outside world that may fail.
use Prim.Native.Nat.{ℕ}
use mathlib.Core.Path.{◌≡◌, refl, ap}
use mathlib.Core.Logic.{◌⊎◌, inl, inr}
use x2ssh.Base.Text.{Str}

-- `anyhow::Error`: the errors that the code itself raises, and those of the code it calls.
pub data Error : Type 0 where
  foreign : ℕ → Error
  no_identity : Error
  auth_failed : Error
  health_check_failed : Error → Error
  no_address : Error
  command_failed : Str → ℕ → Str → Str → Error
  deploy_failed : ℕ → Error
  invalid_client_address : Str → Error → Error
  invalid_server_address : Str → Error → Error
  ipv6_unsupported : Error
  not_root : Error
  no_mode : Error
  unresolved_host : Str → Error
  expected_user_host : Error
  socks_required : Error
  invalid_socks_address : Str → Error → Error
  bad_max_attempts : Str → Error
  expected_addr_prefix : Str → Error
  bad_prefix : Str → Error
  usage : Error
  socks_io : Str → Error → Error
  no_socket_addrs : Error
  unsupported_command : Error

pub data Result {ℓ} (A : Type ℓ) : Type ℓ where
  ok : A → Result A
  err : Error → Result A

-- `e?` followed by the rest of the function
abbrev pub and_then {ℓ κ} : {A : Type ℓ} {B : Type κ} → Result A → (A → Result B) → Result B
and_then (ok a) f = f a
and_then (err e) f = err e

-- `Result::map_err`
abbrev pub map_err {ℓ} : {A : Type ℓ} → (Error → Error) → Result A → Result A
map_err f (ok a) = ok a
map_err f (err e) = err (f e)

pub Result-cases {ℓ} :
    {A : Type ℓ} (r : Result A) → ((a : A) × (r ≡ ok a)) ⊎ ((e : Error) × (r ≡ err e))
Result-cases (ok a) = inl (a, refl)
Result-cases (err e) = inr (e, refl)

-- An async function over the outside world `W`. What it did before an error stays done.
abbrev pub Exec : Type 0 → Type 0 → Type 0
Exec W A = W → Result A × W

module _ {W A : Type 0} where
  abbrev pub pure : A → Exec W A
  pure a w = (ok a, w)

  abbrev pub raise : Error → Exec W A
  raise e w = (err e, w)

  abbrev pub lift : Result A → Exec W A
  lift r w = (r, w)

module _ {W A B : Type 0} where
  abbrev pub continue : Result A → (A → Exec W B) → Exec W B
  continue (ok a) f w = f a w
  continue (err e) f w = (err e, w)

  infixl 5 ◌>>=◌
  abbrev pub ◌>>=◌ : Exec W A → (A → Exec W B) → Exec W B
  ◌>>=◌ m f w = let (r, w') = m w in continue r f w'

module _ {W B : Type 0} where
  infixl 5 ◌>>◌
  abbrev pub ◌>>◌ : Exec W (Unit {0}) → Exec W B → Exec W B
  m >> n = m >>= λ _. n

module _ {W A B : Type 0} where
  continue-eq-ok :
      (r : Result A) (w₁ : W) (f : A → Exec W B) (b : B) (w₂ : W)
      → continue r f w₁ ≡ (ok b, w₂)
      → (a : A) × (r ≡ ok a) × (f a w₁ ≡ (ok b, w₂))
  continue-eq-ok (ok a) w₁ f b w₂ h = (a, refl, h)
  continue-eq-ok (err e) w₁ f b w₂ h = cc

  -- A block that succeeds has succeeded in its first action, and then in the rest.
  pub >>=-eq-ok :
      (m : Exec W A) (f : A → Exec W B) (w : W) {b : B} {w₂ : W}
      → (m >>= f) w ≡ (ok b, w₂)
      → (a : A) × (w₁ : W) × (m w ≡ (ok a, w₁)) × (f a w₁ ≡ (ok b, w₂))
  >>=-eq-ok m f w {b} {w₂} h =
      let (a, e, rest) = continue-eq-ok (m w).0 (m w).1 f b w₂ h in
      (a, (m w).1, ap (λ r. (r, (m w).1)) e, rest)

  pub >>=-ok :
      (m : Exec W A) (f : A → Exec W B) (w : W) {a : A} {w₁ : W}
      → m w ≡ (ok a, w₁)
      → (m >>= f) w ≡ f a w₁
  >>=-ok m f w h = rw h

  pub >>=-err :
      (m : Exec W A) (f : A → Exec W B) (w : W) {e : Error} {w₁ : W}
      → m w ≡ (err e, w₁)
      → (m >>= f) w ≡ (err e, w₁)
  >>=-err m f w h = rw h

  pub >>=-congr :
      (m m' : Exec W A) (f : A → Exec W B) (w : W) → m w ≡ m' w → (m >>= f) w ≡ (m' >>= f) w
  >>=-congr m m' f w h = ap (λ x. continue x.0 f x.1) h

  continue-congr :
      (r : Result A) (f g : A → Exec W B) (w : W)
      → ((a : A) → f a w ≡ g a w)
      → continue r f w ≡ continue r g w
  continue-congr (ok a) f g w h = h a
  continue-congr (err e) f g w h = refl

  pub >>=-congr_right :
      (m : Exec W A) (f g : A → Exec W B) (w : W)
      → ((a : A) → f a (m w).1 ≡ g a (m w).1)
      → (m >>= f) w ≡ (m >>= g) w
  >>=-congr_right m f g w h = continue-congr (m w).0 f g (m w).1 h
