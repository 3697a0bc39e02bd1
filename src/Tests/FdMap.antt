-- ===== src/Tests/FdMap.antt =====
-- Watches at concrete inputs.
use libultrabus.Common.{true, false}
use libultrabus.Common.Maps.{find}
use libultrabus.Watches.Events.{WatchFlags}
use libultrabus.Watches.{Watch, Watches, no_watches, on_add_watch, on_remove_watch}
use libultrabus.Watches.Interest.{IsValid, IsNew, Reach, start, later, add, remove, Reach-interest}

abbrev no_flags : WatchFlags
no_flags = record { readable = false; writable = false; error = false; hangup = false }

abbrev reader : Watch
reader = record {
  address = 10;
  fd = 4;
  enabled = true;
  flags = record no_flags { readable = true };
}

abbrev writer : Watch
writer = record {
  address = 20;
  fd = 4;
  enabled = true;
  flags = record no_flags { writable = true };
}

abbrev reading : Watches
reading = (on_add_watch true reader no_watches).0

abbrev both : Watches
both = (on_add_watch true writer reading).0

reader-IsNew : IsNew reader no_watches
unfolding find
reader-IsNew m e = cc

reading-Reach : Reach reading
reading-Reach = later start (add true reader reader-IsNew)

Reach-interest_example : IsValid (on_remove_watch true reader reading)
Reach-interest_example = Reach-interest (later reading-Reach (remove reader))
