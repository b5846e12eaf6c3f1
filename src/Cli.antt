-- ===== src/Cli.antt =====
-- main.go and inspect.go: the command line. `Flags` is Go's `flag.Parse`, `Args` the loop of
-- `parseSubcommand`, on which `Scan` and `Order` are; `Exits`, `Plans`, `Commands`, `Inspect` and
-- `Main` are the commands; `Removal`, `Sources`, `Agree` and `Listing` are about what they leave.
pub mod Flags
pub mod Args
pub mod Scan
pub mod Order
pub mod Exits
pub mod Plans
pub mod Commands
pub mod Inspect
pub mod Removal
pub mod Sources
pub mod Agree
pub mod Listing
pub mod Main
