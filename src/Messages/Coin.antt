-- ===== src/Messages/Coin.antt =====
-- consensus/src/messages.rs: the shares of the random coin. `RandomCoin` has no operation and is
-- used nowhere.
use hotstuff_dag.Config.{Committee, id, stake}
use hotstuff_dag.Crypto.{Digest, Primitives, PublicKey, SignatureShare, finalize, u64_bytes}
use hotstuff_dag.Error.{
  Result, ensure, invalid_threshold_signature, ok, unknown_authority, unwrap, ◌>>=◌, ◌>>◌,
}
use hotstuff_dag.Prelude.{ltb, ℕ, ◌++◌}

pub record RandomnessShare : Type 0 where
  pub epoch : ℕ
  pub round : ℕ
  pub author : PublicKey
  pub signature_share : SignatureShare

module _ (c : Primitives) where
  pub round_digest : ℕ → ℕ → Digest
  round_digest epoch round = finalize c (u64_bytes epoch ++ u64_bytes round)

  abbrev pub digest : RandomnessShare → Digest
  digest s = round_digest s.epoch s.round

  -- RandomnessShare::new, which panics on a node without a threshold secret.
  unfoldable pub new : ℕ → ℕ → PublicKey → Result RandomnessShare
  new epoch round author = do
    share ← unwrap (c.tss_sign (round_digest epoch round))
    ok (record { epoch = epoch; round = round; author = author; signature_share = share })

  unfoldable pub verify : RandomnessShare → Committee → Result (Unit {0})
  verify s committee = do
    ensure (ltb 0 (stake committee s.author)) (unknown_authority s.author)
    tss_pk ← id committee s.author
    ensure (c.tss_verify tss_pk s.signature_share (digest s)) (invalid_threshold_signature s.author)
