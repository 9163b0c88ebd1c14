-- ===== src/Session/Tests.antt =====
-- A thread with two files.
use broker_proxy.Base.{◌≡◌, refl, [], ◌∷◌}
use broker_proxy.Session.{
  Watched, add_read_invoker, add_error_invoker, ready, invoke_work, invoke_read, done, wait_invoker,
}

abbrev idle : Watched
idle = record {
  read_pipe = 4;
  read_invokers = [];
  error_invokers = [];
  rfds = [];
  efds = [];
  max_fd = 0;
}

abbrev busy : Watched
busy = add_read_invoker 9 (add_error_invoker 7 (add_read_invoker 7 idle))

busy_max : busy.max_fd ≡ 10
busy_max = refl

two_ready : wait_invoker (ready (4 ∷ 9 ∷ []) []) busy ≡ (invoke_work ∷ invoke_read 9 ∷ [], done)
two_ready = refl
