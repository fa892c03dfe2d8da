-- ===== src/Tcp/Accepting.antt =====
-- What `HandleConnect` does with the descriptor that `accept` returns, on each of its branches.
use spsock.Buffer
use spsock.Controller
use spsock.Controller.{Controller}
