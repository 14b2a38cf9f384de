-- ===== src/Policy/Routing.antt =====
-- What the routing bands guarantee.
use multimodal_content_moder.Common.{true, false, ◌≡◌, ◌↔◌, ◌⊎◌, Option, some, arith}
use multimodal_content_moder.Common.Float.{FloatOps}
use multimodal_content_moder.Policy.{
  Decision, allow, flag, block, ThresholdConfig, effective, is_hard, is_soft, route_decision,
}

-- What an automatic decision rests on: a BLOCK on enough confidence and on a hard signal, or on the
-- classifier with no signal at all; an ALLOW on enough confidence, the classifier and no signal.
abbrev pub AutoGrounds :
    (fl : FloatOps) → ThresholdConfig fl.F → Decision → fl.F → fl.F → fl.F → Decision → Type 0
AutoGrounds fl t suggested c n v block =
    (fl.leb t.auto_block c ≡ true)
    × ((is_hard fl t n v ≡ true) ⊎ ((is_soft fl t n v ≡ false) × (suggested ≡ block)))
AutoGrounds fl t suggested c n v allow =
    (fl.leb t.auto_allow c ≡ true)
    × (is_hard fl t n v ≡ false)
    × (is_soft fl t n v ≡ false)
    × (suggested ≡ allow)
AutoGrounds fl t suggested c n v flag = ⊥

module _ (fl : FloatOps) where
  -- The outcome needs no human exactly when its decision has the grounds for an automatic one.
  pub auto_resolved_iff :
      (t : ThresholdConfig fl.F) (suggested : Decision) (c n v : fl.F)
      → ((route_decision fl suggested c n v (some t)).1 ≡ false)
        ↔ AutoGrounds fl t suggested c n v (route_decision fl suggested c n v (some t)).0
  unfolding route_decision effective
  auto_resolved_iff t allow c n v = (ground arith, ground arith)
  auto_resolved_iff t flag c n v = (ground arith, ground arith)
  auto_resolved_iff t block c n v = (ground arith, ground arith)

  -- Lower vision scores and a higher confidence keep an ALLOW.
  pub allow_monotone :
      (t : Option (ThresholdConfig fl.F)) (suggested : Decision) (c c' n n' v v' : fl.F)
      → fl.leb c c' ≡ true
      → fl.leb n' n ≡ true
      → fl.leb v' v ≡ true
      → (route_decision fl suggested c n v t).0 ≡ allow
      → route_decision fl suggested c' n' v' t ≡ route_decision fl suggested c n v t
  unfolding route_decision
  allow_monotone t block c c' n n' v v' hc hn hv h = ground arith
  allow_monotone t flag c c' n n' v v' hc hn hv h = ground arith
  allow_monotone t allow c c' n n' v v' hc hn hv h =
      let u = effective fl t in
      ground (
        arith,
        fl.leb_trans u.auto_allow c c',
        fl.leb_trans u.nsfw_block n' n,
        fl.leb_trans u.violence_block v' v,
        fl.leb_trans u.nsfw_flag n' n,
        fl.leb_trans u.violence_flag v' v,
      )

  -- the decision ALLOW itself has the grounds of an automatic one
  pub allow_grounds :
      (t : ThresholdConfig fl.F) (suggested : Decision) (c n v : fl.F)
      → (route_decision fl suggested c n v (some t)).0 ≡ allow
      → AutoGrounds fl t suggested c n v allow
        × ((route_decision fl suggested c n v (some t)).1 ≡ false)
  unfolding route_decision effective
  allow_grounds t allow c n v h = ground arith
  allow_grounds t flag c n v h = ground arith
  allow_grounds t block c n v h = ground arith
