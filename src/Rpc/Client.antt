-- ===== src/Rpc/Client.antt =====
-- rpc/client.go: how the command line connects to the daemon, and RpcServer of rpc/server_windows.go
-- where it writes the port. What is logged is left out.
pub mod Port
use mynetwork.Common.{
  ℕ, zero, suc, Bool, true, false, ◌&&◌, not, ◌==◌, [], ◌∷◌, ◌++◌, Bytes, codes, Option, none, some,
  Outcome, ok, fatal, decimal, atoi, if◌then◌else◌,
}
use mynetwork.Tun.Windows.Address.{Scanner, trim_space}

-- The system in its states W, and the clients C that net/rpc gives.
pub record Calls (W C : Type 0) : Type 0 where
  pub scanner : Scanner
  pub temp_dir : Bytes
  pub join : Bytes → Bytes → Bytes
  pub read_file : W → Bytes → W × Option Bytes
  pub write_file : W → Bytes → Bytes → W × Option Bytes
  pub dial : W → Bytes → Bytes → W × Option C
  pub sleep : W → W

-- "%d" of an int.
unfoldable pub signed : Bool × ℕ → Bytes
unfolding decimal
signed (negative, n) = if negative && not (n == 0) then b'-' ∷ decimal n else decimal n

unfoldable pub local_address : Bytes → Bytes
local_address port = codes "127.0.0.1:" ++ port

module _ {W C : Type 0} (calls : Calls W C) where
  unfoldable pub lock_path : Bytes → Bytes
  lock_path ifname = calls.join calls.temp_dir (codes "mynetwork-rpc." ++ (ifname ++ codes ".port"))

  -- What follows when a call gave no client.
  unfoldable pub otherwise : (W → W × Option C) → W × Option C → W × Option C
  otherwise next (w, some client) = (w, some client)
  otherwise next (w, none) = next w

  -- `for port := 9000; port < 9100; port++`, with the ports that are left.
  unfoldable pub scan_ports : ℕ → ℕ → W → W × Option C
  unfolding otherwise local_address decimal
  scan_ports zero port w = (w, none)
  scan_ports (suc more) port w =
      otherwise (scan_ports more (suc port))
        (calls.dial w (codes "tcp") (local_address (decimal port)))

  -- The number that the port file holds, if it holds one.
  unfoldable pub dial_number : W → Option (Bool × ℕ) → W × Option C
  unfolding signed local_address
  dial_number w none = (w, none)
  dial_number w (some port) = calls.dial w (codes "tcp") (local_address (signed port))

  -- The port of the file.
  unfoldable pub dial_port : W × Option Bytes → W × Option C
  unfolding atoi trim_space dial_number
  dial_port (w, none) = (w, none)
  dial_port (w, some text) = dial_number w (atoi (trim_space calls.scanner text))

  -- One round of `connect_windows`, but the pause.
  unfoldable pub attempt : Bytes → W → W × Option C
  unfolding otherwise scan_ports dial_port lock_path
  attempt ifname w =
      otherwise (scan_ports 100 9000) (dial_port (calls.read_file w (lock_path ifname)))

  -- After a round, with what the next ones do.
  unfoldable pub retry : (W → W × Outcome C) → W × Option C → W × Outcome C
  retry next (w, some client) = (w, ok client)
  retry next (w, none) = next (calls.sleep w)

  -- `for attempts := 0; attempts < 10; attempts++`, with the rounds that are left.
  unfoldable pub attempts : ℕ → Bytes → W → W × Outcome C
  unfolding retry attempt
  attempts zero ifname w = (w, fatal)
  attempts (suc more) ifname w = retry (attempts more ifname) (attempt ifname w)

  unfoldable pub connect_windows : Bytes → W → W × Outcome C
  unfolding attempts
  connect_windows ifname w = attempts 10 ifname w

  -- Without a client the process ends.
  unfoldable pub required : W × Option C → W × Outcome C
  required (w, some client) = (w, ok client)
  required (w, none) = (w, fatal)

  unfoldable pub connect_linux : Bytes → W → W × Outcome C
  unfolding required
  connect_linux ifname w =
      required
        (calls.dial w (codes "unix") (codes "/run/mynetwork-rpc." ++ (ifname ++ codes ".sock")))

  -- `getClient`, on Windows or not.
  unfoldable pub get_client : Bool → Bytes → W → W × Outcome C
  unfolding connect_windows connect_linux
  get_client windows ifname w = if windows then connect_windows ifname w else connect_linux ifname w

  -- `RpcServer` on Windows with the port that it listens on: the port file, or a warning.
  unfoldable pub write_port : Bytes → ℕ → W → W
  unfolding lock_path decimal
  write_port interface port w = (calls.write_file w (lock_path interface) (decimal port)).0
