-- ===== src/Bind/Interfaces.antt =====
-- The protocols of app/bind/policy_client.py and app/bind/publisher.py. `W` is the world behind them: the
-- policy service, the message broker, the network. A call may change the world, also when it raises.
use ktayl_underwriting.Prelude.{ℕ, String, ◌≡◌, refl}
use ktayl_underwriting.Prelude.Int.{ℤ}
use ktayl_underwriting.Store.Rows.{Result, ok, raised}

pub record CreatePolicyRequest : Type 0 where
  pub policy_number : String
  pub holder_name : String
  pub product_code : String
  pub effective_date : String
  pub expiry_date : String

pub record PolicyRef : Type 0 where
  pub id : String
  pub status : String

-- The bound-risk event.
pub record Event : Type 0 where
  pub policy_number : String
  pub submission_id : ℕ
  pub quote_id : ℕ
  pub premium_minor : ℤ
  pub currency : String
  pub product_code : String
  pub effective_date : String
  pub expiry_date : String

-- A call that acts on the world and may raise.
abbrev pub Call : Type 0 → Type 0 → Type 0
Call W A = W → Result A × W

-- What follows a call that gave `r` and left the world as `w`.
abbrev pub continue : {W A B : Type 0} → (A → Call W B) → Result A × W → Result B × W
continue f (ok a, w) = f a w
continue f (raised e, w) = (raised e, w)

module _ {W : Type 0} where
  abbrev pub lift : {A : Type 0} → Result A → Call W A
  lift r w = (r, w)

  infixl 4 ◌>>=◌ ◌>>◌
  abbrev pub ◌>>=◌ : {A B : Type 0} → Call W A → (A → Call W B) → Call W B
  ◌>>=◌ call next w = continue next (call w)

  abbrev pub ◌>>◌ : {A B : Type 0} → Call W A → Call W B → Call W B
  ◌>>◌ call next w = continue (λ _. next) (call w)

-- Inversion of a call that raises nothing.
pub continue-eq-ok :
    {W A B : Type 0} (f : A → Call W B) (x : Result A × W) {b : B}
    → (continue f x).0 ≡ ok b
    → (a : A) × (x.0 ≡ ok a) × ((f a x.1).0 ≡ ok b)
continue-eq-ok f (ok a, w) h = (a, refl, h)
continue-eq-ok f (raised e, w) h = cc

-- `PolicyServiceClient`
pub record PolicyClient (W : Type 0) : Type 0 where
  pub create_policy : CreatePolicyRequest → Call W PolicyRef
  pub submit : String → Call W (Unit {0})
  pub activate : String → Call W (Unit {0})

-- `BoundRiskPublisher`
pub record Publisher (W : Type 0) : Type 0 where
  pub publish : Event → Call W (Unit {0})
