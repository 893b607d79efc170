-- ===== src/Twsdo/Same.antt =====
-- What no callback of TwsDL (src/twsdo.cpp) changes: which request is open, and which historical
-- request is checked out.
use twstools.Base.{
  ◌≡◌, refl, sym, ap, ◌∙◌, Bool, true, false, Option, none, some, if◌then◌else◌, ◌>>=◌, ◌>>◌,
  assert, IfReturns, IfReturns-bind, IfReturns-map, IfReturns-any, IfReturns-eq,
}
use twstools.Packets.{Status, ReqErr, close_error}
use twstools.Packets.History.{PacketHistData}
use twstools.Todo.Hist.Places.{IsKept}
use twstools.Todo.Work.{
  ReqType, acc_status_request, executions_request, orders_request, contract_details_request,
  hist_request, opt_params_request,
}
use twstools.Twsdo.{TwsDl, with_packet}
use twstools.Twsdo.Packets.{
  AnyPacket, contracts_packet, hist_packet, acc_packet, executions_packet, orders_packet,
  opt_params_packet, ContractsPacket, OptParamsPacket, AccPacket, ExecutionsPacket, OrdersPacket,
  status_of, with_status, close_packet, as_contracts, as_opt_params, as_hist, as_acc, as_executions,
  as_orders,
}

-- The type of the request that a packet is for.
abbrev pub kind_of : AnyPacket → ReqType
kind_of (contracts_packet p) = contract_details_request
kind_of (hist_packet p) = hist_request
kind_of (acc_packet p) = acc_status_request
kind_of (executions_packet p) = executions_request
kind_of (orders_packet p) = orders_request
kind_of (opt_params_packet p) = opt_params_request

abbrev pub kind_in : Option AnyPacket → Option ReqType
kind_in none = none
kind_in (some p) = some (kind_of p)

-- The same request is open, with a packet of the same kind, the same historical request is checked
-- out, and all are still in one place.
pub record IsSame (t t' : TwsDl) : Type 0 where
  pub request : t'.current_request ≡ t.current_request
  pub packet : kind_in t'.packet ≡ kind_in t.packet
  pub out : t'.work_todo.hist_todo.checked_out_request ≡ t.work_todo.hist_todo.checked_out_request
  pub kept : IsKept t.work_todo.hist_todo → IsKept t'.work_todo.hist_todo

pub IsSame-refl : (t : TwsDl) → IsSame t t
IsSame-refl t = record { request = refl; packet = refl; out = refl; kept = λ k. k }

pub IsSame-trans : (t u v : TwsDl) → IsSame t u → IsSame u v → IsSame t v
IsSame-trans t u v h k = record {
  request = k.request ∙ h.request;
  packet = k.packet ∙ h.packet;
  out = k.out ∙ h.out;
  kept = λ i. k.kept (h.kept i);
}

-- A run that keeps the request, from a state where it is kept.
unfoldable pub Keeps : TwsDl → Option TwsDl → Type 0
Keeps t m = IfReturns (IsSame t) m

pub Keeps-some : (t u : TwsDl) → IsSame t u → Keeps t (some u)
unfolding Keeps
Keeps-some t u h = h

pub Keeps-none : (t : TwsDl) → Keeps t none
unfolding Keeps
Keeps-none t = tt

pub Keeps-refl : (t : TwsDl) → Keeps t (some t)
Keeps-refl t = Keeps-some t t (IsSame-refl t)

pub Keeps-then :
    (t : TwsDl) (m : Option TwsDl) (f : TwsDl → Option TwsDl)
    → Keeps t m
    → ((u : TwsDl) → Keeps u (f u))
    → Keeps t (m >>= f)
unfolding Keeps
Keeps-then t m f h k =
    IfReturns-bind (IsSame t) (IsSame t) m f h
      λ u s. IfReturns-map (IsSame u) (IsSame t) (λ v r. IsSame-trans t u v s r) (f u) (k u)

pub Keeps-if :
    (t : TwsDl) (b : Bool) (m n : Option TwsDl)
    → Keeps t m
    → Keeps t n
    → Keeps t (if b then m else n)
Keeps-if t true m n h k = h
Keeps-if t false m n h k = k

pub Keeps-assert : (t : TwsDl) (b : Bool) (m : Option TwsDl) → Keeps t m → Keeps t (assert b >> m)
unfolding Keeps
Keeps-assert t true m h = h
Keeps-assert t false m h = tt

-- A run of something else that comes first.
pub Keeps-after {ℓ} :
    {A : Type ℓ} (t : TwsDl) (m : Option A) (f : A → Option TwsDl)
    → ((a : A) → Keeps t (f a))
    → Keeps t (m >>= f)
unfolding Keeps
Keeps-after t m f k = IfReturns-bind _ _ m f (IfReturns-any m) (λ a _. k a)

-- The same, with what is known of the result.
pub Keeps-given {ℓ} :
    {A : Type ℓ} (t : TwsDl) (P : A → Type 0) (m : Option A) (f : A → Option TwsDl)
    → IfReturns P m
    → ((a : A) → P a → Keeps t (f a))
    → Keeps t (m >>= f)
unfolding Keeps
Keeps-given t P m f h k = IfReturns-bind P (IsSame t) m f h k

-- A call on the packet that leaves its kind.
abbrev pub KeepsKind : (AnyPacket → Option AnyPacket) → Type 0
KeepsKind f = (p : AnyPacket) → IfReturns (λ q. kind_of q ≡ kind_of p) (f p)

pub with_packet-Keeps :
    (f : AnyPacket → Option AnyPacket) → KeepsKind f → (t : TwsDl) → Keeps t (with_packet f t)
unfolding with_packet Keeps
with_packet-Keeps f k t =
    IfReturns-bind (λ p. t.packet ≡ some p) (IsSame t) (t.packet) _ (IfReturns-eq t.packet)
      λ p e.
        IfReturns-bind (λ q. kind_of q ≡ kind_of p) (IsSame t) (f p) _ (k p)
          λ q h. record {
            request = refl;
            packet = ap some h ∙ sym (ap kind_in e);
            out = refl;
            kept = λ i. i;
          }

kind_of-with_status : (s : Status) (p : AnyPacket) → kind_of (with_status s p) ≡ kind_of p
unfolding with_status
kind_of-with_status s (contracts_packet p) = refl
kind_of-with_status s (hist_packet p) = refl
kind_of-with_status s (acc_packet p) = refl
kind_of-with_status s (executions_packet p) = refl
kind_of-with_status s (orders_packet p) = refl
kind_of-with_status s (opt_params_packet p) = refl

pub close_packet-KeepsKind : (e : ReqErr) → KeepsKind (close_packet e)
unfolding close_packet
close_packet-KeepsKind e p =
    IfReturns-bind _ _ (close_error e (status_of p)) _ (IfReturns-any _)
      λ s _. kind_of-with_status s p

pub as_contracts-KeepsKind :
    (f : ContractsPacket → Option ContractsPacket) → KeepsKind (as_contracts f)
unfolding as_contracts
as_contracts-KeepsKind f (contracts_packet p) =
    IfReturns-bind _ _ (f p) _ (IfReturns-any (f p)) (λ q _. refl)
as_contracts-KeepsKind f (hist_packet p) = tt
as_contracts-KeepsKind f (acc_packet p) = tt
as_contracts-KeepsKind f (executions_packet p) = tt
as_contracts-KeepsKind f (orders_packet p) = tt
as_contracts-KeepsKind f (opt_params_packet p) = tt

pub as_opt_params-KeepsKind :
    (f : OptParamsPacket → Option OptParamsPacket) → KeepsKind (as_opt_params f)
unfolding as_opt_params
as_opt_params-KeepsKind f (opt_params_packet p) =
    IfReturns-bind _ _ (f p) _ (IfReturns-any (f p)) (λ q _. refl)
as_opt_params-KeepsKind f (hist_packet p) = tt
as_opt_params-KeepsKind f (acc_packet p) = tt
as_opt_params-KeepsKind f (executions_packet p) = tt
as_opt_params-KeepsKind f (orders_packet p) = tt
as_opt_params-KeepsKind f (contracts_packet p) = tt

pub as_hist-KeepsKind : (f : PacketHistData → Option PacketHistData) → KeepsKind (as_hist f)
unfolding as_hist
as_hist-KeepsKind f (hist_packet p) = IfReturns-bind _ _ (f p) _ (IfReturns-any (f p)) (λ q _. refl)
as_hist-KeepsKind f (contracts_packet p) = tt
as_hist-KeepsKind f (acc_packet p) = tt
as_hist-KeepsKind f (executions_packet p) = tt
as_hist-KeepsKind f (orders_packet p) = tt
as_hist-KeepsKind f (opt_params_packet p) = tt

pub as_acc-KeepsKind : (f : AccPacket → AccPacket) → KeepsKind (as_acc f)
unfolding as_acc
as_acc-KeepsKind f (acc_packet p) = refl
as_acc-KeepsKind f (hist_packet p) = tt
as_acc-KeepsKind f (contracts_packet p) = tt
as_acc-KeepsKind f (executions_packet p) = tt
as_acc-KeepsKind f (orders_packet p) = tt
as_acc-KeepsKind f (opt_params_packet p) = tt

pub as_executions-KeepsKind :
    (f : ExecutionsPacket → ExecutionsPacket) → KeepsKind (as_executions f)
unfolding as_executions
as_executions-KeepsKind f (executions_packet p) = refl
as_executions-KeepsKind f (hist_packet p) = tt
as_executions-KeepsKind f (contracts_packet p) = tt
as_executions-KeepsKind f (acc_packet p) = tt
as_executions-KeepsKind f (orders_packet p) = tt
as_executions-KeepsKind f (opt_params_packet p) = tt

pub as_orders-KeepsKind : (f : OrdersPacket → OrdersPacket) → KeepsKind (as_orders f)
unfolding as_orders
as_orders-KeepsKind f (orders_packet p) = refl
as_orders-KeepsKind f (hist_packet p) = tt
as_orders-KeepsKind f (contracts_packet p) = tt
as_orders-KeepsKind f (acc_packet p) = tt
as_orders-KeepsKind f (executions_packet p) = tt
as_orders-KeepsKind f (opt_params_packet p) = tt
