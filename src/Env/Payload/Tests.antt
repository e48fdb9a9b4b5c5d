-- ===== src/Env/Payload/Tests.antt =====
-- The results on the request payloads, on the sample spec.
use mwaa_controller.Common.{◌≡◌, ◌↔◌, refl, string_eq, [], ok}
use mwaa_controller.Env.Delta.{differences}
use mwaa_controller.Env.Read.{read_spec}
use mwaa_controller.Env.Payload.{new_create_request_payload, new_update_request_payload}
use mwaa_controller.Env.Payload.Bounds.{
  InRange, create_input_of, update_input_of, create_payload_iff, update_payload_iff,
}
use mwaa_controller.Env.Payload.RoundTrip.{create_round_trip}
use mwaa_controller.Samples.Faults.{faults}
use mwaa_controller.Samples.Maps.{pointers, pointers-IsLawful}
use mwaa_controller.Samples.Comparators.{comparators, comparators-IsLawful}
use mwaa_controller.Samples.Echo.{prod_input, echo, echo-Echoes, prod-HasMaps, prod-IsNormal}
use mwaa_controller.Samples.Resources.{prod_spec, prod-InRange}

create_payload_iff_example :
    (new_create_request_payload faults pointers prod_spec ≡ ok prod_input)
    ↔ (InRange prod_spec × (prod_input ≡ create_input_of pointers prod_spec))
create_payload_iff_example = create_payload_iff faults pointers prod_spec prod_input

update_payload_iff_example :
    (new_update_request_payload faults pointers prod_spec ≡ ok (update_input_of pointers prod_spec))
    ↔ (InRange prod_spec
        × (update_input_of pointers prod_spec ≡ update_input_of pointers prod_spec))
update_payload_iff_example =
    update_payload_iff faults pointers prod_spec (update_input_of pointers prod_spec)

prod_payload : new_create_request_payload faults pointers prod_spec ≡ ok prod_input
prod_payload = (create_payload_iff faults pointers prod_spec prod_input).1 (prod-InRange, refl)

create_round_trip_example :
    differences comparators prod_spec (read_spec pointers (echo "CREATING") prod_spec) ≡ []
create_round_trip_example =
    create_round_trip pointers pointers-IsLawful faults prod_spec prod_input (echo "CREATING")
      comparators comparators-IsLawful prod_payload (echo-Echoes "CREATING") prod-HasMaps
      prod-IsNormal
