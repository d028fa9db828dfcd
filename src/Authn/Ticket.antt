-- ===== src/Authn/Ticket.antt =====
-- authn/ticket/ticket.go: the reference implementation of tickets. An error of the store is wrapped, so that
-- the status that it carries is still found.
use grpcapi.Base.{String, Option, none, some, ◌==◌, if◌then◌else◌, Result, ok, err}
use grpcapi.Status.{World}
use grpcapi.Principal.{Principal}
use grpcapi.Authn.Credentials.{Credentials, first_ticket}

module _ (w : World) where
  -- `Authenticate` over `Redeem` and the wrapping of its error.
  unfoldable pub authenticate :
      (w.Ambient → String → Result w.Failure (Option (Principal w)))
      → (w.Failure → w.Failure)
      → w.Ambient
      → Credentials
      → Result w.Failure (Option (Principal w))
  authenticate redeem wrap ctx c =
      let token = first_ticket c in
      if token == "" then ok none else elim (redeem ctx token) [
        | err e ↦ err (wrap e)
        | ok none ↦ ok none
        | ok (some p) ↦ ok (some p)
      ]
