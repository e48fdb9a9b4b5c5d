-- ===== src/Env/References/Resolution.antt =====
-- What `ResolveReferences` has done where it returns no error.
use mwaa_controller.Api.{Environment}
use mwaa_controller.Ext.Errors.{Errors}
use mwaa_controller.Ext.Kubernetes.{Reader}
use mwaa_controller.Env.References.{resolve_role, resolve_key, resolve_bucket}
use mwaa_controller.Env.References.{resolve_security_groups, resolve_subnets}

module _ (E : Errors) (R : Reader E) where
  module _ (ko : Environment) where
    -- The resource after each of the five resolvers.
    abbrev k1 : Environment
    k1 = (resolve_role E R ko).0

    abbrev k2 : Environment
    k2 = (resolve_key E R k1).0

    abbrev k3 : Environment
    k3 = (resolve_security_groups E R k2).0

    abbrev k4 : Environment
    k4 = (resolve_subnets E R k3).0

    abbrev k5 : Environment
    k5 = (resolve_bucket E R k4).0
