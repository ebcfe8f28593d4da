-- ===== src/Gateway/Handler/Alone.antt =====
-- gateway-service/src/app.ts: one request handled from beginning to end, with no other in between.
--
-- The fuel is the number of stretches that it is resumed for.
use stellar_facilitator.Common.{ℕ, zero, suc, string_eq}
use stellar_facilitator.Gateway.{GatewayConfig}
use stellar_facilitator.Gateway.Handler.{resume}
use stellar_facilitator.Gateway.State.{Request, GatewayState, Phase, waiting, finish_settlement}

-- While a request waits, the facilitator answers its call.
unfoldable pub facilitator_answers : Phase → GatewayState → GatewayState
facilitator_answers (waiting p v n) s = finish_settlement n s
facilitator_answers _ s = s

unfoldable pub handle_protected_request :
    GatewayConfig → Request → ℕ → Phase → GatewayState → Phase × GatewayState
handle_protected_request config r zero phase s = (phase, s)
handle_protected_request config r (suc fuel) phase s =
    let next = resume config r phase (facilitator_answers phase s) in
    handle_protected_request config r fuel next.0 next.1
