-- ===== src/Ws2812Led.antt =====
-- WS2812Led/src: effects on the pixels of LED strips.
pub mod Color
pub mod Segment
pub mod Gradient
pub mod Effects
pub mod Sound
pub mod Burn
pub mod Lights
pub mod Trails
pub mod Turn
pub mod Encoder
pub mod Strip
mod Tests
