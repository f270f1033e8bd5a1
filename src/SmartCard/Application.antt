-- ===== src/SmartCard/Application.antt =====
-- What the sessions of the applications use of `SmartCardProtocol`: `send_apdu`, `select`,
-- `configure` and `init_scp`; and the protocol that provides it.
use yubikey_manager.Prelude.{ℕ}
use yubikey_manager.Core.Io.{Io}
use yubikey_manager.Core.Bytes.{Bytes}
use yubikey_manager.Core.Version.{Version}
use yubikey_manager.SmartCard.Chaining.{Connection}
use yubikey_manager.SmartCard.Scp.{Crypto}
use yubikey_manager.SmartCard.Protocol.{Session, send_apdu, select, configure}

-- The arguments of `send_apdu` are `cla`, `ins`, `p1`, `p2` and the data; `le` is 0. The keys of
-- `init_scp` are those that the session was opened with.
pub record Application (D : Type 0) : Type 0 where
  pub send_apdu : ℕ → ℕ → ℕ → ℕ → Bytes → Io D Bytes
  pub select : Bytes → Io D Bytes
  pub configure : Version → Io D Unit
  pub init_scp : Io D Unit

-- `SmartCardProtocol` on a connection, with the fuel for chaining, and the handshake for its keys.
abbrev pub protocol_application :
    {D : Type 0} → Crypto → Connection D → ℕ → Io (Session D) Unit → Application (Session D)
protocol_application crypto connection fuel init_scp = record {
  send_apdu = λ cla ins p1 p2 body. send_apdu crypto connection fuel cla ins p1 p2 body 0;
  select = select crypto connection fuel;
  configure = configure crypto connection;
  init_scp = init_scp;
}
