-- ===== src/Tests.antt =====
-- Runs of the model on concrete inputs, and the theorems at concrete inputs.
mod Codec
mod Modem
mod Unlocking
mod Lost
mod Answers
mod Frames
mod Loop
mod Printed
mod Tracing
mod Bringup
mod Dbus
mod Script
mod Lawful
