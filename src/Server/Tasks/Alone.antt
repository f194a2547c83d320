-- ===== src/Server/Tasks/Alone.antt =====
-- src/bin/server.rs, `serve`: a task that no other interrupts and that is not aborted.
use lwd_mixnet_proxy.Common.{ℕ, zero, suc, ◌≡◌, Bool, true, false, List, [], ◌++◌}
use lwd_mixnet_proxy.Handshake.{Io}
use lwd_mixnet_proxy.Metrics.Server.{Calls}
use lwd_mixnet_proxy.Server.{Settings, Upstream, Fate}
use lwd_mixnet_proxy.Server.Carried.{is_over}
use lwd_mixnet_proxy.Server.Tasks.{Stage, leaving, gone, advance}

abbrev pub has_left : {W U : Type 0} → Stage W U → Bool
has_left leaving = true
has_left gone = true
has_left _ = false

module _ {W U E : Type 0} (io : Io W E) (up : Upstream W U E) (settings : Settings) where
  -- So many waits of a task one after the other, with the calls that it makes after each.
  unfoldable pub advance_all : ℕ → Stage W U → Calls × Stage W U
  advance_all zero s = ([], s)
  advance_all (suc n) s =
      let next = advance io up settings s in
      let rest = advance_all n next.1 in (next.0 ++ rest.0, rest.1)

  -- These calls, and those of `n` waits from there, are all the calls of a stream that got so far.
  record SameAs (next : Calls × Stage W U) (n : ℕ) (r : Calls × Fate E) : Type 0 where
    pub same_calls : next.0 ++ (advance_all n next.1).0 ≡ r.0
    pub same_end : has_left (advance_all n next.1).1 ≡ is_over r.1
