-- ===== src/Envelope/Kinds.antt =====
-- The kind registry of src/v2/envelope.rs.
use hacp.Common.{String, Bool, List, [], ◌∷◌, contains}

abbrev pub session_open : String
session_open = "session.open"

abbrev pub session_features : String
session_features = "session.features"

abbrev pub session_close : String
session_close = "session.close"

abbrev pub contract_proposed : String
contract_proposed = "contract.proposed"

abbrev pub contract_countered : String
contract_countered = "contract.countered"

abbrev pub contract_accepted : String
contract_accepted = "contract.accepted"

abbrev pub contract_frozen : String
contract_frozen = "contract.frozen"

abbrev pub contract_amendment_proposed : String
contract_amendment_proposed = "contract.amendment.proposed"

abbrev pub contract_amendment_decided : String
contract_amendment_decided = "contract.amendment.decided"

abbrev pub contract_withdrawn : String
contract_withdrawn = "contract.withdrawn"

abbrev pub contract_no_agreement : String
contract_no_agreement = "contract.no_agreement"

abbrev pub submission_delivered : String
submission_delivered = "submission.delivered"

abbrev pub verification_delivered : String
verification_delivered = "verification.delivered"

abbrev pub escalation_raised : String
escalation_raised = "escalation.raised"

abbrev pub escalation_referred : String
escalation_referred = "escalation.referred"

abbrev pub escalation_resolved : String
escalation_resolved = "escalation.resolved"

abbrev pub escalation_no_agreement : String
escalation_no_agreement = "escalation.no_agreement"

abbrev pub collaboration_request : String
collaboration_request = "collaboration.request"

abbrev pub collaboration_permit : String
collaboration_permit = "collaboration.permit"

abbrev pub heartbeat : String
heartbeat = "heartbeat"

abbrev pub error : String
error = "error"

abbrev pub all_kinds : List String
all_kinds =
    session_open ∷ session_features ∷ session_close ∷ contract_proposed ∷ contract_countered
    ∷ contract_accepted ∷ contract_frozen ∷ contract_amendment_proposed ∷ contract_amendment_decided
    ∷ contract_withdrawn ∷ contract_no_agreement ∷ submission_delivered ∷ verification_delivered
    ∷ escalation_raised ∷ escalation_referred ∷ escalation_resolved ∷ escalation_no_agreement
    ∷ collaboration_request ∷ collaboration_permit ∷ heartbeat ∷ error ∷ []

-- The kinds that an observer may be granted.
abbrev pub lifecycle_events : List String
lifecycle_events =
    contract_frozen ∷ contract_amendment_decided ∷ submission_delivered ∷ verification_delivered
    ∷ session_close ∷ escalation_raised ∷ []

unfoldable pub is_registered : String → Bool
unfolding contains
is_registered kind = contains kind all_kinds
