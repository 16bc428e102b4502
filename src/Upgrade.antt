-- ===== src/Upgrade.antt =====
-- upgrade.rs: a response that hands its connection over, and a response whose connection was.
use touche.Base.{some}
use touche.Base.Result.{Result, ok_or}
use touche.Crates.{Crates}
use touche.Http.{Response}

-- ClientUpgradeError
pub data ClientUpgradeError : Type 0 where
  connection_not_upgradable : ClientUpgradeError

module _ {c : Crates} {B : Type 0} where
  -- Upgrade for http::Response and for its builder: the handler becomes an extension of the response.
  unfoldable pub upgrade :
      {Handler : Type 0} → Response c Handler B → Handler → Response c Handler B
  upgrade res handler = record res { upgrade = some handler }

  -- ClientUpgrade for http::Response: the connection among the extensions.
  unfoldable pub into_upgraded :
      {Conn : Type 0} → Response c Conn B → Result ClientUpgradeError Conn
  into_upgraded res = ok_or res.upgrade connection_not_upgradable
