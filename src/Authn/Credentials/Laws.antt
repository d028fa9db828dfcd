-- ===== src/Authn/Credentials/Laws.antt =====
-- authn/authn.go: the two ways in which the kinds of the presented credentials are counted agree.
use grpcapi.Base.{◌≡◌, arith, nat_eq, length}
use grpcapi.Authn.Credentials.{Credentials, empty, presented_kinds, auth_kinds}

-- `AuthKinds` is the number of `PresentedKinds`, and it is 0 exactly for credentials that `Empty` holds of.
pub auth_kinds_lem :
    (c : Credentials)
    → (auth_kinds c ≡ length (presented_kinds c)) × (empty c ≡ nat_eq (auth_kinds c) 0)
unfolding auth_kinds presented_kinds empty
auth_kinds_lem c = ground arith
