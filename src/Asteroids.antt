-- ===== src/Asteroids.antt =====
-- The game under apps/asteroids: its data, its objects and their ticks.
pub mod Structs
pub mod Consts
pub mod Bullet
pub mod Gun
pub mod Rock
pub mod RockField
pub mod Ship
pub mod Player
pub mod Collision
pub mod Universe
pub mod Session
pub mod World
pub mod Examples
