-- ===== src/Gateway/FrameAad/Routes.antt =====
-- gateway/frame.go: the two ends of a session are the only senders and receivers of its frames.
use harness_platform_monorep.Prelude.{ℕ, ◌≡◌, ◌≢◌, true, arith}
use harness_platform_monorep.Domain.Endpoint.{Endpoint}
use harness_platform_monorep.Domain.Session.{Session}
use harness_platform_monorep.Domain.Frame.{direction_valid}
use harness_platform_monorep.Gateway.FrameAad.{valid_frame_route}

-- A valid route goes from one end of the session to the other, in a valid direction; and of a
-- session with two different ends, the receiver that answers on a valid route sends to the first
-- sender, in the other direction.
pub valid_frame_route_answer :
    (e e' : Endpoint) (s : Session) (receiver receiver' direction direction' : ℕ)
    → s.aba_endpoint_id ≢ s.hc_endpoint_id
    → valid_frame_route e s receiver direction ≡ true
    → valid_frame_route e' s receiver' direction' ≡ true
    → e'.id ≡ receiver
    → (receiver' ≡ e.id) × (direction' ≢ direction) × (direction_valid direction ≡ true)
unfolding valid_frame_route
valid_frame_route_answer e e' s receiver receiver' direction direction' distinct h k same =
    ground arith
