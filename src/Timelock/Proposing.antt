-- ===== src/Timelock/Proposing.antt =====
-- The proposals that a list of transactions becomes.
use paraspace_core.Prelude.{
  ℕ, ◌+◌, ◌<◌, All, concat, none, some, List, [], ◌∷◌, ◌++◌, ◌≡◌, refl, ap, ◌∙◌, append-nil,
  append_assoc,
}
use paraspace_core.Chunk.{chunk}
use paraspace_core.Chunk.Laws.{concat-chunk, IsChunk, chunk-IsChunk}
use paraspace_core.Timelock.{delegate_call, MetaTransaction, Proposal, Config, Codec, World}
use paraspace_core.Timelock.Buffer.{shift, propose_safe_transaction, propose_chunks, propose_multi}

module _ (codec : Codec) (config : Config) where
  -- A proposal for each chunk, with the nonces from `n + i` on.
  abbrev pub numbered : ℕ → ℕ → List (List MetaTransaction) → List Proposal
  numbered n i [] = []
  numbered n i (c ∷ cs) =
      (record {
        to = config.multisend;
        data_hex = codec.encode_multi c;
        nonce = some (n + i);
        operation = delegate_call;
      })
      ∷ numbered n (i + 1) cs

  propose_one :
      (n i : ℕ) (c : List MetaTransaction) (w : World)
      → config.multi_sig_nonce ≡ some n
      → propose_safe_transaction codec config
          (record { to = config.multisend; data_hex = codec.encode_multi c })
          none
          i
          delegate_call
          w
        ≡ record w { proposals = w.proposals ++ numbered n i (c ∷ []) }
  unfolding propose_safe_transaction
  propose_one n i c w h =
      ap
        (λ o. record w {
          proposals =
              w.proposals
              ++ (record {
                to = config.multisend;
                data_hex = codec.encode_multi c;
                nonce = shift codec config o i;
                operation = delegate_call;
              })
                ∷ [];
        })
        h

  propose_chunks-numbered :
      (n i : ℕ) (cs : List (List MetaTransaction)) (w : World)
      → config.multi_sig_nonce ≡ some n
      → propose_chunks codec config delegate_call none i cs w
        ≡ record w { proposals = w.proposals ++ numbered n i cs }
  unfolding propose_chunks propose_safe_transaction
  propose_chunks-numbered n i [] w h = rw (append-nil w.proposals) refl
  propose_chunks-numbered n i (c ∷ cs) w h =
      let next : World = record w { proposals = w.proposals ++ numbered n i (c ∷ []) } in
      ap (propose_chunks codec config delegate_call none (i + 1) cs) (propose_one n i c w h)
      ∙ propose_chunks-numbered n (i + 1) cs next h
      ∙ ap (λ b. record w { proposals = b })
          (append_assoc w.proposals (numbered n i (c ∷ [])) (numbered n (i + 1) cs))

  -- With a nonce that is set, a list of transactions becomes one proposal for each of its chunks, a
  -- delegate call of the multisend contract with the chunk encoded, after those before, with
  -- consecutive nonces from that one on. The chunks put together are the list, and none is empty or
  -- longer than the chunk size, which is positive.
  pub propose_multi-numbered :
      (n : ℕ) (transactions : List MetaTransaction) (w : World)
      → config.multi_sig_nonce ≡ some n
      → 0 < config.chunk_size
      → (cs : List (List MetaTransaction)) × (concat cs ≡ transactions)
        × All (IsChunk config.chunk_size) cs
        × (propose_multi codec config transactions w
            ≡ record w { proposals = w.proposals ++ numbered n 0 cs })
  unfolding propose_multi
  propose_multi-numbered n transactions w h p = (
    chunk transactions config.chunk_size,
    concat-chunk config.chunk_size transactions p,
    chunk-IsChunk config.chunk_size transactions p,
    propose_chunks-numbered n 0 (chunk transactions config.chunk_size) w h,
  )
