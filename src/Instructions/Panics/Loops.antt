-- ===== src/Instructions/Panics/Loops.antt =====
-- The loops over the parameters of an ASCII URI do not panic.
use libbtcwallet.Base.{
  suc, ◌++◌, ◌<◌, ◌>>=◌, ℕ, zero, ◌-◌, ◌*◌, ◌+◌, ◌≤◌, ◌≡◌, refl, arith, Bool, true, Option, none,
  some, List, [], ◌∷◌, All, Bytes, length, IsAscii, NoPanic, no_panic_done, no_panic_fail,
  NoPanic-bind, NoPanic-if, NoPanic-reject_if, NoPanic-map_err, NoPanic-ok_or, is_char_boundary,
  ltb, Bool-cases, inl, inr, find_split, find_split-All, Option-cases,
}
use libbtcwallet.Instructions.External.{Externals}
use libbtcwallet.Instructions.{PaymentMethod, on_chain, amount}
use libbtcwallet.Instructions.Percent.{un_percent_encode, decode_loop}
use libbtcwallet.Instructions.Check.{
  AmountState, check_lightning, check_amount, check_loop, check_amounts, start,
}
use libbtcwallet.Instructions.Uri.{
  UriState, parse_address, instructions_from_bolt11, has_prefix, split_once, handle_bc,
  handle_lightning, handle_lno, handle_pop, handle_other, handle_key, handle_params,
}
use libbtcwallet.Instructions.Meta.{UriMeta, read_key, read_params}

pub boundary_ascii : (s : Bytes) (i : ℕ) → IsAscii s → i ≤ length s → is_char_boundary s i ≡ true
unfolding is_char_boundary
boundary_ascii [] zero h le = refl
boundary_ascii [] (suc i) h le = absurd (omega arith)
boundary_ascii (c ∷ s) zero h le = ground arith
boundary_ascii (c ∷ s) (suc i) h le = boundary_ascii s i h.1 (omega arith)

pub has_prefix-NoPanic :
    {E : Type 0} (s prefix : Bytes) → IsAscii s → NoPanic (has_prefix {E = E} s prefix)
unfolding has_prefix ◌>>=◌
has_prefix-NoPanic s prefix h = elim (Bool-cases (ltb (length s) (length prefix))) [
  | inl e ↦ rw e no_panic_done
  | inr e ↦ rw (e, boundary_ascii s (length prefix) h (ground arith)) no_panic_done
]

-- Both parts of a parameter are ASCII if it is.
abbrev pub AsciiOption : Option Bytes → Type 0
AsciiOption none = Unit
AsciiOption (some s) = IsAscii s

pub split_once-IsAscii :
    (s : Bytes) (c : ℕ) → IsAscii s → IsAscii (split_once s c).0 × AsciiOption (split_once s c).1
unfolding split_once
split_once-IsAscii s c h = elim (Option-cases (find_split c s)) [
  | inl e ↦ rw e (h, tt)
  | inr ((p, q), e) ↦ rw e (find_split-All (λ b. b < 128) c s p q h e)
]

pub ruleset no_panic_rules = (
  no_panic_done, no_panic_fail, NoPanic-bind, NoPanic-if, NoPanic-reject_if, NoPanic-map_err,
  NoPanic-ok_or,
)

decode_loop-NoPanic : (x : Externals) (s res : Bytes) → NoPanic (decode_loop x s res)
unfolding decode_loop
decode_loop-NoPanic x [] res = no_panic_done
decode_loop-NoPanic x (b ∷ []) res = search no_panic_rules
decode_loop-NoPanic x (b ∷ high ∷ []) res =
    search (no_panic_rules, decode_loop-NoPanic x (high ∷ []) (res ++ b ∷ []))
decode_loop-NoPanic x (b ∷ high ∷ low ∷ s) res = search (
  no_panic_rules,
  decode_loop-NoPanic x s (res ++ ((high - b'0') * 16 + (low - b'0')) ∷ []),
  decode_loop-NoPanic x (high ∷ low ∷ s) (res ++ b ∷ []),
)

-- Decoding never panics, whatever the bytes.
pub un_percent_encode-NoPanic : (x : Externals) (s : Bytes) → NoPanic (un_percent_encode x s)
unfolding un_percent_encode
un_percent_encode-NoPanic x s =
    NoPanic-bind (decode_loop-NoPanic x s []) λ res _. search no_panic_rules

module _ (x : Externals) where
  check_lightning-NoPanic :
      (m : PaymentMethod x) (a : ℕ) (s : AmountState) → NoPanic (check_lightning x m a s)
  unfolding check_lightning
  check_lightning-NoPanic (on_chain _ _) a s = no_panic_done
  check_lightning-NoPanic _ a s = search no_panic_rules

  check_amount-NoPanic :
      (m : PaymentMethod x) (o : Option ℕ) (s : AmountState) → NoPanic (check_amount x m o s)
  unfolding check_amount
  check_amount-NoPanic m none s = no_panic_done
  check_amount-NoPanic m (some a) s = search (no_panic_rules, check_lightning-NoPanic)

  check_loop-NoPanic : (ms : List (PaymentMethod x)) (s : AmountState) → NoPanic (check_loop x ms s)
  unfolding check_loop
  check_loop-NoPanic [] s = no_panic_done
  check_loop-NoPanic (m ∷ ms) s =
      NoPanic-bind (check_amount-NoPanic m (amount m) s) λ t _. check_loop-NoPanic ms t

  pub check_amounts-NoPanic : (ms : List (PaymentMethod x)) → NoPanic (check_amounts x ms)
  unfolding check_amounts
  check_amounts-NoPanic ms = NoPanic-bind (check_loop-NoPanic ms start) λ t _. search no_panic_rules

  read_key-NoPanic : (k : Bytes) (v : Option Bytes) (m : UriMeta) → NoPanic (read_key x k v m)
  unfolding read_key
  read_key-NoPanic k none m = search no_panic_rules depth 12
  read_key-NoPanic k (some v) m = search no_panic_rules depth 12

  pub read_params-NoPanic : (ps : List Bytes) (m : UriMeta) → NoPanic (read_params x ps m)
  unfolding read_params
  read_params-NoPanic [] m = no_panic_done
  read_params-NoPanic (p ∷ ps) m =
      NoPanic-bind (read_key-NoPanic _ _ m) λ m' _. read_params-NoPanic ps m'

  module _ (network : x.Network) (supports_pops : Bool) where
    pub parse_address-NoPanic : (s : Bytes) → NoPanic (parse_address x network supports_pops s)
    unfolding parse_address
    parse_address-NoPanic s = search no_panic_rules

    pub bolt11-NoPanic :
        (i : x.Bolt11Invoice) → NoPanic (instructions_from_bolt11 x network supports_pops i)
    unfolding instructions_from_bolt11
    bolt11-NoPanic i = search no_panic_rules

    handle_key-NoPanic :
        (k : Bytes) (v : Option Bytes) (s : UriState x)
        → IsAscii k
        → AsciiOption v
        → NoPanic (handle_key x network supports_pops k v s)
    unfolding handle_key handle_bc handle_lightning handle_lno handle_pop handle_other
    handle_key-NoPanic k none s hk hv =
        search (no_panic_rules, has_prefix-NoPanic, un_percent_encode-NoPanic) depth 14
    handle_key-NoPanic k (some v) s hk hv =
        search
          (
            no_panic_rules, has_prefix-NoPanic, un_percent_encode-NoPanic, parse_address-NoPanic,
            bolt11-NoPanic,
          )
          depth 14

    pub handle_params-NoPanic :
        (ps : List Bytes) (s : UriState x)
        → All IsAscii ps
        → NoPanic (handle_params x network supports_pops ps s)
    unfolding handle_params
    handle_params-NoPanic [] s h = no_panic_done
    handle_params-NoPanic (p ∷ ps) s (hp, hs) =
        let (hk, hv) = split_once-IsAscii p b'=' hp in
        NoPanic-bind (handle_key-NoPanic _ _ s hk hv) λ s' _. handle_params-NoPanic ps s' hs
