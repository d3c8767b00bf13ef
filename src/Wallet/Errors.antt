-- ===== src/Wallet/Errors.antt =====
-- The error types of libbtcwallet/src/lib.rs.
use libbtcwallet.Base.{Result, ok, err}
use libbtcwallet.Instructions.External.{Externals}
use libbtcwallet.Store.{IdExternals}
use libbtcwallet.Wallet.Services.{Services}

-- `From<CustodialError>` and `From<NodeError>`, as `?` applies them
abbrev pub convert_err : {E F A : Type 0} → (E → F) → Result E A → Result F A
convert_err f (ok a) = ok a
convert_err f (err e) = err (f e)

module _ {x : Externals} {ids : IdExternals} (s : Services x ids) where
  pub data WalletError : Type 0 where
    ldk_node_failure : s.NodeError → WalletError
    custodial_failure : s.CustodialError → WalletError
