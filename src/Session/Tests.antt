-- ===== src/Session/Tests.antt =====
-- The session theorems at a signal and at a terminal.
use ssh.Common.{codes}
use ssh.Session.Exchange.{SessionMessage, signal}

abbrev hang_up : SessionMessage
hang_up = signal 3 (codes "sighup")
