-- ===== src/Server/Intersection.antt =====
-- The intersection of the client's set with the server's (server_lib.cc).
use private_join_and_compute.Prelude.{◌≡◌}
use private_join_and_compute.Std.{sort}
use private_join_and_compute.Std.Order.{IsDistinct, has, keep}
use private_join_and_compute.Std.Intersection.{set_intersection-sort}
use private_join_and_compute.Match.{EncryptedSet, EncryptedElement}
use private_join_and_compute.Client.{element_less}
use private_join_and_compute.Server.{intersect}
use private_join_and_compute.Crypto.OpenSsl.{OpenSsl}

module _ ⦃lib : OpenSsl⦄ where
  -- Where no two items of the client's set have the same element, the intersection that
  -- ComputeIntersection adds up has, in the order of the elements, each item of the client's set, with
  -- its associated data, whose element the server's set has, once, and no other.
  pub intersect_lem :
      (client_set server_set : EncryptedSet)
      → IsDistinct EncryptedElement.element client_set
      → intersect client_set server_set
        ≡ keep
            (λ x. has EncryptedElement.element x.element server_set)
            (sort element_less client_set)
  unfolding intersect
  intersect_lem client_set server_set =
      set_intersection-sort EncryptedElement.element client_set server_set
