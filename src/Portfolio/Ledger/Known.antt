-- ===== src/Portfolio/Ledger/Known.antt =====
-- The records of facts that are booked already, and another observation of one (`Ledger.apply` of
-- src/quantdesk/portfolio/ledger.py).
use rs_quant.Base.{
  Bool, true, not, ◌&&◌, List, [], ◌∷◌, ◌++◌, ◌==◌, Result, ok, ◌>>◌, raise_if, any, keep, map,
}
use rs_quant.Core.Types.{Ident}
use rs_quant.Portfolio.State.{EconomicIdentity, AppliedIdentity, LedgerState}
use rs_quant.Portfolio.Ledger.Facts.{
  Header, LedgerError, conflicting_duplicate, EconomicAliasUpdate, LedgerChange, same_key,
}
use rs_quant.Portfolio.Ledger.Evidence.{Evidence, economic_key}

-- `[r for r in state.identities if economic_key(r.identity) in keys]`
abbrev pub names : EconomicIdentity → EconomicIdentity → Bool
names i j = same_key (economic_key i) (economic_key j)

abbrev pub matches_any : List EconomicIdentity → AppliedIdentity → Bool
matches_any ids r = any (names r.identity) ids

abbrev pub is_recorded : List AppliedIdentity → EconomicIdentity → Bool
is_recorded rs i = any (λ r. names r.identity i) rs

abbrev pub applied : Ident → Ident → EconomicIdentity → AppliedIdentity
applied fingerprint transaction_id i = record {
  identity = i;
  fingerprint = fingerprint;
  transaction_id = transaction_id;
}

abbrev pub alias_update : Ident → Ident → EconomicIdentity → EconomicAliasUpdate
alias_update event_id transaction_id i = record {
  event_id = event_id;
  transaction_id = transaction_id;
  identity = i;
}

abbrev pub scoped_identity : Ident → Ident → Ident → Evidence → Ident → EconomicIdentity
scoped_identity venue environment account e native = record {
  venue = venue;
  environment = environment;
  account = account;
  instrument = e.instrument;
  native_id = native;
  component_type = e.component;
}

-- The identity and, after it, the aliases, which differ from it in the native identity.
unfoldable pub identities_of : LedgerState → Evidence → List Ident → List EconomicIdentity
identities_of state e aliases =
    map (scoped_identity state.venue state.environment state.account e) (e.native ∷ aliases)

-- The records of a booked fact agree with a new observation of it.
abbrev pub agrees : Ident → Ident → AppliedIdentity → Bool
agrees fingerprint transaction_id r =
    r.fingerprint == fingerprint && r.transaction_id == transaction_id

abbrev pub all_agree : Ident → Ident → List AppliedIdentity → Bool
all_agree fingerprint transaction_id [] = true
all_agree fingerprint transaction_id (r ∷ rs) =
    agrees fingerprint transaction_id r && all_agree fingerprint transaction_id rs

-- Another observation of what is booked under `first`: new aliases are added.
unfoldable pub book_again :
    Header
    → Ident
    → List EconomicIdentity
    → AppliedIdentity
    → List AppliedIdentity
    → LedgerState
    → Result LedgerError LedgerChange
book_again event fingerprint ids first rest candidate = do
  raise_if (not (all_agree fingerprint first.transaction_id (first ∷ rest))) conflicting_duplicate
  let additions = keep (λ i. not (is_recorded (first ∷ rest) i)) ids in
      ok (record {
        state = record candidate {
          identities =
              candidate.identities ++ map (applied fingerprint first.transaction_id) additions;
        };
        transactions = [];
        position_updates = [];
        position_legs = [];
        duplicate = true;
        alias_updates = map (alias_update event.event_id first.transaction_id) additions;
      })
