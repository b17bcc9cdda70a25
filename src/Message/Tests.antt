-- ===== src/Message/Tests.antt =====
-- The message theorems at concrete inputs.
use ssh.Common.{◌≡◌, arith, false, some}
use ssh.Message.Exchange.{Message, window_change, Fits, written, meaning}
use ssh.Message.Delivery.{received, received-written, Sized, Sized-written}

-- A window change of channel 3 to 24 rows and 80 columns.
abbrev resized : Message
resized = window_change 3 24 80 600 800

received-written_example : received false (written resized) ≡ some (meaning resized)
unfolding Fits
received-written_example =
    received-written false resized (omega arith, omega arith, omega arith, omega arith, omega arith)

Sized-written_example : Sized (written resized)
Sized-written_example = Sized-written resized
