-- ===== src/Examples/Services.antt =====
-- Two requests to the signature service, one of which has been answered.
use hotstuff_dag.Crypto.Service.Served.{answers_to, refusals_to, run-answers_to}
use hotstuff_dag.Crypto.Service.{Input, Signing, fresh, new_signature, request, run, serve}
use hotstuff_dag.Prelude.{List, [], be_bytes, ◌++◌, ◌+◌, ◌==◌, ◌∷◌, ◌≡◌}

abbrev signing : Signing
signing = record {
  keypair_from_bytes = λ secret. secret == 7;
  dalek_sign = λ secret d. be_bytes 64 (secret + d);
  share_sign = λ secret d. secret + d;
}

abbrev two_requests : List Input
two_requests = request 50 1 ∷ request 60 2 ∷ serve ∷ []

run-answers_to_example :
    ((run (new_signature signing 7) two_requests fresh).answered
        ++ answers_to signing 7 (run (new_signature signing 7) two_requests fresh).queue
      ≡ answers_to signing 7 ((50, 1) ∷ (60, 2) ∷ []))
    × ((run (new_signature signing 7) two_requests fresh).refused
          ++ refusals_to signing 7 (run (new_signature signing 7) two_requests fresh).queue
        ≡ refusals_to signing 7 ((50, 1) ∷ (60, 2) ∷ []))
run-answers_to_example = run-answers_to signing 7 two_requests
