-- ===== src/Core/State/Laws.antt =====
-- The index by genesis hash and the chains of a state agree, and every operation keeps that.
use substation.Prelude.{
  ◌≡◌, refl, subst, ℕ, ◌<◌, ◌^◌, none, some, arith, List, String, ◌≟◌, nat_key,
}
use substation.Prelude.HashMap.{HashMap, get-insert}
use substation.Prelude.HashMap
use substation.Common.DenseMap.{DenseMap}
use substation.Common.DenseMap
use substation.Common.DenseMap.Laws.{
  get-add, add-IsValid, get-put, put-IsValid, get-remove, remove-IsValid, add-fresh,
}
use substation.Common.DenseMap.Laws as DenseLaws
use substation.Common.Types.{BlockHash}
use substation.Core.Chain.{Chain}
use substation.Core.Chain
use substation.Core.Chain.Laws as ChainLaws
use substation.Core.Chain.Laws.{Keeps}
use substation.Core.Node.{Clock}
use substation.Core.State.{State, new, max_nodes_of}

pub record IsValid (s : State) : Type 0 where
  pub chains_valid : DenseLaws.IsValid s.chains
  -- A hash of the index leads to the chain with that hash.
  pub forward :
      (h : BlockHash) (id : ℕ)
      → HashMap.get h s.chains_by_genesis_hash ≡ some id
      → (c : Chain) × (DenseMap.get s.chains id ≡ some c) × (c.genesis_hash ≡ h)
  -- Every chain is in the index, under its hash.
  pub backward :
      (id : ℕ) (c : Chain)
      → DenseMap.get s.chains id ≡ some c
      → HashMap.get c.genesis_hash s.chains_by_genesis_hash ≡ some id
  -- Every chain has no more nodes than its kind allows.
  pub each :
      (id : ℕ) (c : Chain)
      → DenseMap.get s.chains id ≡ some c
      → ChainLaws.IsValid c × (c.max_nodes ≡ max_nodes_of s c.genesis_hash)
  -- The limit is a `usize`.
  pub limit : s.max_third_party_nodes < 2 ^ 64

pub new-IsValid : (denylist : List String) (n : ℕ) → n < 2 ^ 64 → IsValid (new denylist n)
unfolding new HashMap.get DenseMap.get DenseMap.new
new-IsValid denylist n r = record {
  limit = r;
  chains_valid = DenseLaws.new-IsValid;
  forward = λ h id e. cc;
  backward = λ id c e. cc;
  each = λ id c e. cc;
}

-- A chain is written back.
pub put-IsValid_lem :
    (s : State) (id : ℕ) (c d : Chain)
    → IsValid s
    → DenseMap.get s.chains id ≡ some c
    → Keeps c d
    → IsValid (record s { chains = DenseMap.put s.chains id d })
unfolding max_nodes_of
put-IsValid_lem s id c d v e k = record {
  limit = v.limit;
  chains_valid = put-IsValid s.chains id d c e v.chains_valid;
  forward = λ h i f. elim (id ≟ i) [
    | yes p ↦ (
      d,
      ground (arith, get-put s.chains id i d c e),
      ground (arith, v.backward id c e, k.same_hash, (v.forward h i f).1, (v.forward h i f).2),
    )
    | no n ↦
        let (x, at, hash) = v.forward h i f in
        (x, ground (arith, get-put s.chains id i d c e), hash)
  ];
  backward = λ i x f.
      ground (arith, get-put s.chains id i d c e, v.backward id c e, v.backward i x, k.same_hash);
  each = λ i x f. elim (id ≟ i) [
    | yes p ↦
        let same : d ≡ x = ground (arith, get-put s.chains id i d c e) in
        subst (λ y. ChainLaws.IsValid y × (y.max_nodes ≡ max_nodes_of s y.genesis_hash)) same
          (k.valid, ground (arith, k.same_max, k.same_hash, (v.each id c e).1))
    | no n ↦ v.each i x (ground (arith, get-put s.chains id i d c e))
  ];
}

-- Every chain that is not the one dropped stays, and the dropped one leaves both indexes.
pub drop-IsValid :
    (s : State) (id : ℕ) (c : Chain)
    → IsValid s
    → DenseMap.get s.chains id ≡ some c
    → IsValid (record s {
      chains = (DenseMap.remove s.chains id).0;
      chains_by_genesis_hash = HashMap.remove c.genesis_hash s.chains_by_genesis_hash;
    })
unfolding max_nodes_of
drop-IsValid s id c v e = record {
  limit = v.limit;
  chains_valid = remove-IsValid s.chains id v.chains_valid;
  forward = λ h i f.
      let gone = HashMap.get-remove c.genesis_hash h s.chains_by_genesis_hash in
      let (x, at, hash) = v.forward h i (ground (arith, gone)) in
      (x, ground (arith, gone, at, hash, e, get-remove s.chains id i), hash);
  backward = λ i x f.
      let at : DenseMap.get s.chains i ≡ some x = ground (arith, get-remove s.chains id i) in
      ground (
        arith,
        HashMap.get-remove c.genesis_hash x.genesis_hash s.chains_by_genesis_hash,
        v.backward i x at,
        v.backward id c e,
        get-remove s.chains id i,
      );
  each = λ i x f. v.each i x (ground (arith, get-remove s.chains id i));
}

-- A chain with a new hash.
pub add-IsValid_lem :
    (s : State) (h : BlockHash) (clock : Clock)
    → IsValid s
    → HashMap.get h s.chains_by_genesis_hash ≡ none
    → let chain = Chain.new clock h (max_nodes_of s h) in
      let id = (DenseMap.add s.chains chain).1 in
      IsValid (record s {
        chains = (DenseMap.add s.chains chain).0;
        chains_by_genesis_hash = HashMap.insert h id s.chains_by_genesis_hash;
      })
unfolding max_nodes_of
add-IsValid_lem s h clock v e =
    let chain = Chain.new clock h (max_nodes_of s h) in
    let id = (DenseMap.add s.chains chain).1 in
    let hash : chain.genesis_hash ≡ h = unfold Chain.new in refl in
    let limit : chain.max_nodes ≡ max_nodes_of s h = unfold Chain.new in refl in
    let fresh = (add-fresh s.chains chain v.chains_valid).1 in
    record {
      limit = v.limit;
      chains_valid = add-IsValid s.chains chain v.chains_valid;
      forward = λ j i f. elim (h ≟ j) [
        | yes p ↦ (
          chain,
          ground (
            arith,
            HashMap.get-insert h j id s.chains_by_genesis_hash,
            get-add s.chains chain i v.chains_valid,
          ),
          ground (arith, hash),
        )
        | no n ↦
            let (x, at, xh) =
              v.forward j i (ground (arith, HashMap.get-insert h j id s.chains_by_genesis_hash)) in
            (x, ground (arith, get-add s.chains chain i v.chains_valid, fresh, at), xh)
      ];
      backward = λ i x f. elim (id ≟ i) [
        | yes p ↦ ground (
          arith,
          HashMap.get-insert h x.genesis_hash id s.chains_by_genesis_hash,
          get-add s.chains chain i v.chains_valid,
          hash,
        )
        | no n ↦
            let at : DenseMap.get s.chains i ≡ some x =
              ground (arith, get-add s.chains chain i v.chains_valid) in
            ground (
              arith,
              HashMap.get-insert h x.genesis_hash id s.chains_by_genesis_hash,
              v.backward i x at,
            )
      ];
      each = λ i x f. elim (id ≟ i) [
        | yes p ↦
            let same : chain ≡ x = ground (arith, get-add s.chains chain i v.chains_valid) in
            subst (λ y. ChainLaws.IsValid y × (y.max_nodes ≡ max_nodes_of s y.genesis_hash)) same
              (
                ChainLaws.new-IsValid clock h (max_nodes_of s h) (ground (arith, v.limit)),
                ground (arith, limit, hash),
              )
        | no n ↦ v.each i x (ground (arith, get-add s.chains chain i v.chains_valid))
      ];
    }
