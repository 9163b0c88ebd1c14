-- ===== src/Queue/Ring/Interface.antt =====
-- The ring of the Arduino build fills the interface of a bounded FIFO.
use broker_proxy.Base.{◌-◌, ◌≡◌, ap, arith}
use broker_proxy.Queue.Fifo.{Fifo}
use broker_proxy.Queue.Ring.{Ring, push, pop}
use broker_proxy.Queue.Ring.Refine.{
  IsValid, items, push-IsValid, pop-IsValid, push_refines, pop_refines,
}

module _ {A : Type 0} where
  pub size-push : (x : A) (q : Ring A) → (push x q).0.size ≡ q.size
  unfolding push
  size-push x q = ground arith

  pub size-pop : (q : Ring A) → (pop q).0.size ≡ q.size
  unfolding pop
  size-pop q = ground arith

  abbrev pub ring_fifo : Fifo A
  ring_fifo = record {
    State = Ring A;
    IsValid = IsValid;
    limit = λ q. q.size - 1;
    items = items;
    push = push;
    pop = pop;
    push_valid = push-IsValid;
    push_limit = λ x q v. ap (λ k. k - 1) (size-push x q);
    push_items = push_refines;
    pop_valid = pop-IsValid;
    pop_limit = λ q v. ap (λ k. k - 1) (size-pop q);
    pop_items = pop_refines;
  }
