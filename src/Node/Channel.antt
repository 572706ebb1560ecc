-- ===== src/Node/Channel.antt =====
-- fangorn/src/node/node.rs: the channel of partial decryptions that `build` gives a node. Its sender is
-- dropped when `build` returns, and the router has no handler for the protocol, so receiving fails.
use fangorn_rs.Prelude.{Option, none}

unfoldable pub pd_rx : {M : Type 0} → Option M
pd_rx = none
