-- ===== src/Broker/Activation/Laws.antt =====
-- Which handler a join goes to.
use ttn.Base.{
  ℕ, ◌≡◌, inl, inr, refl, sym, ap, ◌∙◌, true, List, [], ◌∷◌, Option, none, some, String, Result, ok,
  err, IsIn, from_bind, ok_inj, ==_iff, Bool-cases, if◌then◌else◌,
}
use ttn.Base.Options.{some_inj}
use ttn.Errors.{Grpc}
use ttn.Lorawan.{PhyPayload, Codec}
use ttn.Broker.Activation.{
  JoinUplink, JoinRequest, JoinResponse, Services, remote, some_handlers, deduplicated, without_mic,
  challenge_of, has_mic, first_correct, chosen, handle_activation,
}

-- What holds of a join that is answered.
pub record Answered (codec : Codec) (services : Services) (first : JoinUplink)
    (others : List JoinUplink) (response : JoinResponse) : Type 0 where
  pub request : JoinRequest
  pub handlers : List String
  pub phy : PhyPayload
  pub stripped : List ℕ
  pub handler : String
  pub answer : List ℕ
  pub proof : PhyPayload
  pub accepted : JoinResponse
  pub is_prepared : services.ns_prepare (deduplicated services first others) ≡ ok request
  pub is_announced : services.handlers_for_app_id request.app_id ≡ ok handlers
  pub is_read : codec.unmarshal request.payload ≡ ok phy
  pub is_stripped : codec.marshal (without_mic phy) ≡ ok stripped
  pub has_answered :
      IsIn (handler, answer) (services.answers (challenge_of request stripped) handlers)
  pub is_proof : codec.unmarshal answer ≡ ok proof
  pub is_correct : proof.mic ≡ phy.mic
  pub is_accepted : services.activate handler request ≡ ok accepted
  pub is_activated : services.ns_activate accepted ≡ ok response

remote-eq_ok :
    {A : Type 0} (grpc : Grpc) (text : String) (r : Result A) {a : A}
    → remote grpc text r ≡ ok a
    → r ≡ ok a
unfolding remote
remote-eq_ok grpc text (ok b) e = e
remote-eq_ok grpc text (err x) e = cc

some_handlers-eq_ok :
    (app_id : String) (ids : List String) {hs : List String}
    → some_handlers app_id ids ≡ ok hs
    → ids ≡ hs
unfolding some_handlers
some_handlers-eq_ok app_id [] e = cc
some_handlers-eq_ok app_id (h ∷ hs) e = cc

module _ (codec : Codec) where
  chosen-eq_ok :
      (o : Option String) {handler : String} → chosen codec o ≡ ok handler → o ≡ some handler
  unfolding chosen
  chosen-eq_ok none e = cc
  chosen-eq_ok (some h) e = ap some (ok_inj e)

  has_mic-eq_true :
      (mic : ℕ) (r : Result PhyPayload)
      → has_mic codec mic r ≡ true
      → (proof : PhyPayload) × (r ≡ ok proof) × (proof.mic ≡ mic)
  unfolding has_mic
  has_mic-eq_true mic (err e) h = cc
  has_mic-eq_true mic (ok phy) h = (phy, refl, (==_iff phy.mic mic).0 h)

  first_correct-eq_some :
      (mic : ℕ) (answers : List (String × List ℕ)) {handler : String}
      → first_correct codec mic answers ≡ some handler
      → (answer : List ℕ) × (proof : PhyPayload) × IsIn (handler, answer) answers
        × (codec.unmarshal answer ≡ ok proof)
        × (proof.mic ≡ mic)
  unfolding first_correct
  first_correct-eq_some mic [] h = cc
  first_correct-eq_some mic ((id, payload) ∷ rest) h =
      elim (Bool-cases (has_mic codec mic (codec.unmarshal payload))) [
        | inl e ↦
            let (proof, read, same) = has_mic-eq_true mic (codec.unmarshal payload) e in
            let found =
              some_inj
                (sym (ap (λ b. if b then some id else first_correct codec mic rest) e) ∙ h) in
            (payload, proof, inl (ap (λ i. (i, payload)) (sym found)), read, same)
        | inr e ↦
            let later = sym (ap (λ b. if b then some id else first_correct codec mic rest) e) ∙ h in
            let (answer, proof, place, read, same) = first_correct-eq_some mic rest later in
            (answer, proof, inr place, read, same)
      ]

-- A join that is answered has been prepared by the network server. It went to a handler that answered
-- the broker's challenge, the request without its MIC, with a frame that has the MIC of the
-- request; the answer is what the network server makes of this handler's.
pub handle_activation-Answered :
    (codec : Codec) (grpc : Grpc) (services : Services) (first : JoinUplink)
    (others : List JoinUplink) (response : JoinResponse)
    → handle_activation codec grpc services (first ∷ others) ≡ ok (some response)
    → Answered codec services first others response
unfolding handle_activation
handle_activation-Answered codec grpc services first others response e =
    from_bind (remote grpc _ _) _ e λ request e1 r1.
      from_bind (services.handlers_for_app_id request.app_id) _ r1 λ ids e2 r2.
        from_bind (some_handlers request.app_id ids) _ r2 λ handlers e3 r3.
          from_bind (codec.unmarshal request.payload) _ r3 λ phy e4 r4.
            from_bind (codec.marshal (without_mic phy)) _ r4 λ stripped e5 r5.
              from_bind (chosen codec _) _ r5 λ handler e6 r6.
                from_bind (remote grpc _ _) _ r6 λ accepted e7 r7.
                  from_bind (remote grpc _ _) _ r7 λ activated e8 r8.
                    let (answer, proof, place, read, same) =
                      first_correct-eq_some codec phy.mic
                        (services.answers (challenge_of request stripped) handlers)
                        (chosen-eq_ok codec _ e6) in
                    record {
                      request = request;
                      handlers = handlers;
                      phy = phy;
                      stripped = stripped;
                      handler = handler;
                      answer = answer;
                      proof = proof;
                      accepted = accepted;
                      is_prepared = remote-eq_ok grpc _ _ e1;
                      is_announced = e2 ∙ ap ok (some_handlers-eq_ok request.app_id ids e3);
                      is_read = e4;
                      is_stripped = e5;
                      has_answered = place;
                      is_proof = read;
                      is_correct = same;
                      is_accepted = remote-eq_ok grpc _ _ e7;
                      is_activated = remote-eq_ok grpc _ _ e8 ∙ ap ok (some_inj (ok_inj r8));
                    }
