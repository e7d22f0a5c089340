-- ===== src/Client/Workers/Rest.antt =====
-- How far a goroutine of a closed client is from its end, pkg/muxtunnelClient.go.
use goreverselb.Base.{Bool, Option, arith, none, refl, some, true, ℕ, ◌-◌, ◌≡◌, ◌≤◌}
use goreverselb.Types.{TunnelDataResponse}
use goreverselb.Client.{
  MuxTunnelClient, Link, Added, ready, already_closed, not_connected, not_sent, not_decoded,
  setup_failed, after_answer,
}
use goreverselb.Client.Workers.{
  Worker, begins, dials, awaits, attached, between, sleeps, gone, advance, after_added,
}

-- A closed client's worker has so many moves left.
unfoldable pub rest : Worker → ℕ
rest dials = 4
rest awaits = 3
rest sleeps = 3
rest begins = 2
rest attached = 2
rest between = 1
rest gone = 0

after_answer-closed :
    (o : Option TunnelDataResponse) (tc : MuxTunnelClient)
    → (after_answer o tc).1.closed ≡ tc.closed
unfolding after_answer
after_answer-closed none tc = refl
after_answer-closed (some tdr) tc = ground arith

after_added-rest : (x : Added × MuxTunnelClient) → rest (after_added x).0 ≤ 2
unfolding rest after_added
after_added-rest (ready, tc) = omega arith
after_added-rest (already_closed, tc) = omega arith
after_added-rest (not_connected, tc) = omega arith
after_added-rest (not_sent, tc) = omega arith
after_added-rest (not_decoded, tc) = omega arith
after_added-rest (setup_failed e, tc) = omega arith

after_added-client : (x : Added × MuxTunnelClient) → (after_added x).1 ≡ x.1
unfolding after_added
after_added-client (ready, tc) = refl
after_added-client (already_closed, tc) = refl
after_added-client (not_connected, tc) = refl
after_added-client (not_sent, tc) = refl
after_added-client (not_decoded, tc) = refl
after_added-client (setup_failed e, tc) = refl

module _ (link : Link) (is_closed : Bool) (tc : MuxTunnelClient) where
  pub advance-closed : (w : Worker) → (advance link is_closed tc w).1.closed ≡ tc.closed
  unfolding advance
  advance-closed begins = refl
  advance-closed dials = refl
  advance-closed awaits = ground (
    arith,
    after_added-client (after_answer link.answered tc),
    after_answer-closed link.answered tc,
  )
  advance-closed attached = refl
  advance-closed between = refl
  advance-closed sleeps = refl
  advance-closed gone = refl

  pub advance-rest :
      (w : Worker) → tc.closed ≡ true → rest (advance link is_closed tc w).0 ≤ rest w - 1
  unfolding advance rest
  advance-rest begins h = ground (arith, h)
  advance-rest dials h = ground arith
  advance-rest awaits h = after_added-rest (after_answer link.answered tc)
  advance-rest attached h = ground (arith, h)
  advance-rest between h = ground (arith, h)
  advance-rest sleeps h = ground arith
  advance-rest gone h = ground arith

pub rest-le : (w : Worker) → rest w ≤ 4
unfolding rest
rest-le begins = omega arith
rest-le dials = omega arith
rest-le awaits = omega arith
rest-le attached = omega arith
rest-le between = omega arith
rest-le sleeps = omega arith
rest-le gone = omega arith

pub rest-zero : (w : Worker) → rest w ≡ 0 → w ≡ gone
unfolding rest
rest-zero begins h = absurd (omega arith)
rest-zero dials h = absurd (omega arith)
rest-zero awaits h = absurd (omega arith)
rest-zero attached h = absurd (omega arith)
rest-zero between h = absurd (omega arith)
rest-zero sleeps h = absurd (omega arith)
rest-zero gone h = refl
