-- ===== src/Env/Resource/Tests.antt =====
-- The results on the wrapper of the resource, on the sample environment.
use mwaa_controller.Common.{String, [], ◌∷◌, string_eq}
use mwaa_controller.Common.Dict.{Dict}

abbrev fields : Dict String
fields = ("name", "legacy") ∷ []
