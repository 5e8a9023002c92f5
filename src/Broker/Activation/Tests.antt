-- ===== src/Broker/Activation/Tests.antt =====
-- A join that one of two handlers can prove.
use ttn.Base.{ℕ, refl, true, [], ◌∷◌, none, ok, err, Error}
use ttn.Errors.{Grpc}
use ttn.Lorawan.{MType, Body, PhyPayload, Codec}
use ttn.Broker.Activation.{
  JoinUplink, JoinResponse, Services, remote, some_handlers, first_correct, chosen, has_mic,
  deduplicated, template_of, all_options, handle_activation,
}
use ttn.Broker.Activation.Laws.{Answered, handle_activation-Answered}

-- The frame of a payload has its first byte for a MIC.
abbrev frame : ℕ → PhyPayload
frame mic = record {
  m_type = MType.join_request;
  body = Body.join_request (record { app_eui = 1; dev_eui = 2; dev_nonce = 3 });
  mic = mic;
}

abbrev codec : Codec
codec = record {
  unmarshal = λ b. elim b [ [] ↦ err Error.eof | mic ∷ _ ↦ ok (frame mic) ];
  marshal = λ p. ok (p.mic ∷ []);
  validate_mic = λ p key. ok true;
  set_mic = λ p k. ok p;
  encrypt_frm_payload = λ p k. ok p;
  decrypt_frm_payload = λ p k. ok p;
  unmarshal_join_accept = λ b. err Error.eof;
  encrypt_join_accept = λ p k. ok p;
}

abbrev grpc : Grpc
grpc = record { text = λ c s. s; sprintf = λ s. s; code_name = λ c. "Unknown" }

abbrev response : JoinResponse
response = record { payload = 9 ∷ []; downlink_option = none }

abbrev services : Services
services = record {
  select_best = λ os. none;
  ns_prepare = λ m. ok (record m { app_id = "app"; dev_id = "dev" });
  ns_activate = λ r. ok r;
  handlers_for_app_id = λ a. ok ("a" ∷ "b" ∷ []);
  answers = λ c hs. ("a", 5 ∷ []) ∷ ("b", 7 ∷ []) ∷ [];
  activate = λ h m. ok response;
}

abbrev uplink : JoinUplink
uplink = record { payload = 7 ∷ []; app_eui = 1; dev_eui = 2; downlink_options = [] }

handle_activation-Answered_example : Answered codec services uplink [] response
unfolding handle_activation remote some_handlers chosen first_correct has_mic deduplicated
    template_of all_options
handle_activation-Answered_example =
    handle_activation-Answered codec grpc services uplink [] response refl
