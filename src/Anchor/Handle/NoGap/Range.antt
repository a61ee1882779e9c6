-- ===== src/Anchor/Handle/NoGap/Range.antt =====
-- get_txn_range fetches what its cache lacks, and leaves no gap.
use indy_perf.Base.{ℕ, zero, suc, ◌+◌, Option}
use indy_perf.Exec.{pure}
use indy_perf.Exec.Runs.{
  Keeps, Keeps-block, Keeps-pure, Keeps-bind, Keeps-if, Keeps-when_some, keeps_rules,
}
use indy_perf.Anchor.Ident.{seqno_of}
use indy_perf.Anchor.LedgerType.{LedgerType, LedgerValue}
use indy_perf.Anchor.Cache
use indy_perf.Anchor.Cache.Filled.{IsFilled}
use indy_perf.Anchor.Cache.Selects.{Keeps-get_txn_range as Keeps-get_txn_range_cache}
use indy_perf.Anchor.Handle.State.{Env, on_cache}
use indy_perf.Anchor.Handle.Holds.{Holds, Runs-on_cache}
use indy_perf.Anchor.Handle.Fetch.{fetch_tail_txn, fetch_until, get_txn_range}
use indy_perf.Anchor.Handle.NoGap.{Filled, Keeps-fetch_tail_txn}

module _ {W : Type 0} (env : Env W) where
  Keeps-fetch_until :
      (fuel : ℕ) (t : LedgerType) (end' : Option ℕ) (n : ℕ)
      → Keeps Filled (fetch_until env fuel t end' n)
  unfolding fetch_until
  Keeps-fetch_until zero t end' n = Keeps-block
  Keeps-fetch_until (suc fuel) t end' n =
      Keeps-if _ _ (pure tt)
        (Keeps-bind (fetch_tail_txn env t end') _ (Keeps-fetch_tail_txn env t end') (λ row.
          Keeps-when_some row _ (λ i. Keeps-fetch_until fuel t end' (seqno_of i.ident + 1))))
        (Keeps-pure tt)

  Keeps-cached_range :
      (t : LedgerType) (start end' : Option ℕ)
      → Keeps (Holds {W = W} IsFilled) (on_cache (Cache.get_txn_range t start end'))
  Keeps-cached_range t start end' = Runs-on_cache _ (Keeps-get_txn_range_cache t start end')

  -- A range is answered from a cache without a gap, and leaves one.
  pub Keeps-get_txn_range :
      (fuel : ℕ) (lv : LedgerValue) (start end' : Option ℕ)
      → Keeps Filled (get_txn_range env fuel lv start end')
  unfolding get_txn_range
  Keeps-get_txn_range fuel lv start end' =
      search (keeps_rules, Keeps-fetch_until, Keeps-cached_range) depth 9
